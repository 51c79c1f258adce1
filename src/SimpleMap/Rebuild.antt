-- ===== src/SimpleMap/Rebuild.antt =====
-- `Set` of what `Range` visits, in the order of the visit, rebuilds the map.
use sofa_bolt_go.Base.{
  ℕ, suc, ◌≡◌, refl, ap, ◌∙◌, true, false, List, [], ◌∷◌, ◌++◌, append-nil, append_assoc, arith,
  Bytes, equal, equal_iff, ltb, length,
}
use sofa_bolt_go.SimpleMap.{
  FastSimpleMap, KvHeader, str_host, str_content_type, str_service, str_authorization, empty,
  set_kv, set, range_field, range_kvs, range,
}
use sofa_bolt_go.SimpleMap.Invariant.{is_special, Absent, Distinct, Plain, IsWellFormed}

-- The entries handed to `set` in order.
unfoldable pub set_all : List (Bytes × Bytes) → FastSimpleMap → FastSimpleMap
set_all [] m = m
set_all ((k, v) ∷ es) m = set_all es (set k v m)

set_all-append :
    (xs ys : List (Bytes × Bytes)) (m : FastSimpleMap)
    → set_all (xs ++ ys) m ≡ set_all ys (set_all xs m)
unfolding set_all
set_all-append [] ys m = refl
set_all-append ((k, v) ∷ xs) ys m = set_all-append xs ys (set k v m)

-- A new key goes to the end.
set_kv_new :
    (k v : Bytes) (kvs : List KvHeader)
    → Absent k kvs
    → set_kv k v kvs ≡ kvs ++ record { key = k; value = v } ∷ []
unfolding set_kv
set_kv_new k v [] a = refl
set_kv_new k v (kv ∷ kvs) (n, a) = rw (n, set_kv_new k v kvs a)

-- `pre ++ kvs` has distinct keys: those of `kvs` are new to `pre`.
Apart : List KvHeader → List KvHeader → Type 0
Apart pre [] = Unit
Apart pre (kv ∷ kvs) = Absent kv.key pre × Apart (pre ++ kv ∷ []) kvs

set_plain :
    (k v : Bytes) (m : FastSimpleMap)
    → is_special k ≡ false
    → set k v m ≡ record m { kvs = set_kv k v m.kvs }
unfolding set
set_plain k v m h = ground arith

set_new :
    (kv : KvHeader) (pre : List KvHeader) (m : FastSimpleMap)
    → Absent kv.key pre
    → is_special kv.key ≡ false
    → set kv.key kv.value (record m { kvs = pre }) ≡ record m { kvs = pre ++ kv ∷ [] }
set_new kv pre m n s =
    set_plain kv.key kv.value (record m { kvs = pre }) s ∙ rw (set_kv_new kv.key kv.value pre n)

set_all-range_kvs :
    (kvs pre : List KvHeader) (m : FastSimpleMap)
    → Apart pre kvs
    → Plain kvs
    → set_all (range_kvs kvs) (record m { kvs = pre }) ≡ record m { kvs = pre ++ kvs }
unfolding set_all range_kvs Apart
set_all-range_kvs [] pre m a p = rw append-nil
set_all-range_kvs (kv ∷ kvs) pre m (n, a) (s, p) =
    ap (set_all (range_kvs kvs)) (set_new kv pre m n s)
    ∙ set_all-range_kvs kvs (pre ++ kv ∷ []) m a p
    ∙ rw append_assoc

Fresh : List KvHeader → List KvHeader → Type 0
Fresh pre [] = Unit
Fresh pre (kv ∷ kvs) = Absent kv.key pre × Fresh pre kvs

Absent-snoc :
    (k : Bytes) (pre : List KvHeader) (kv : KvHeader)
    → Absent k pre
    → equal kv.key k ≡ false
    → Absent k (pre ++ kv ∷ [])
Absent-snoc k [] kv a h = (h, tt)
Absent-snoc k (p ∷ pre) kv (n, a) h = (n, Absent-snoc k pre kv a h)

Fresh-snoc :
    (pre kvs : List KvHeader) (kv : KvHeader)
    → Fresh pre kvs
    → Absent kv.key kvs
    → Fresh (pre ++ kv ∷ []) kvs
unfolding Fresh
Fresh-snoc pre [] kv f a = tt
Fresh-snoc pre (x ∷ kvs) kv (n, f) (h, a) = (
  Absent-snoc x.key pre kv n (ground (arith, equal_iff kv.key x.key, equal_iff x.key kv.key)),
  Fresh-snoc pre kvs kv f a,
)

Distinct-Apart : (pre kvs : List KvHeader) → Distinct kvs → Fresh pre kvs → Apart pre kvs
unfolding Apart Fresh
Distinct-Apart pre [] d f = tt
Distinct-Apart pre (kv ∷ kvs) (a, d) (n, f) =
    (n, Distinct-Apart (pre ++ kv ∷ []) kvs d (Fresh-snoc pre kvs kv f a))

Fresh-nil : (kvs : List KvHeader) → Fresh [] kvs
unfolding Fresh
Fresh-nil [] = tt
Fresh-nil (kv ∷ kvs) = (tt, Fresh-nil kvs)

ltb_pos : (n : ℕ) → ltb 0 (suc n) ≡ true
ltb_pos n = ground arith

-- A field that is empty is not visited, and one that is not is set again.
module _ (m : FastSimpleMap) where
  service_again :
      (v : Bytes)
      → set_all (range_field str_service v) (record m { service = [] }) ≡ record m { service = v }
  unfolding set_all range_field set equal
  service_again [] = refl
  service_again (x ∷ v) = rw (ltb_pos (length v)) refl

  host_again :
      (v : Bytes)
      → set_all (range_field str_host v) (record m { host = [] }) ≡ record m { host = v }
  unfolding set_all range_field set equal
  host_again [] = refl
  host_again (x ∷ v) = rw (ltb_pos (length v)) refl

  content_type_again :
      (v : Bytes)
      → set_all (range_field str_content_type v) (record m { content_type = [] })
        ≡ record m { content_type = v }
  unfolding set_all range_field set equal
  content_type_again [] = refl
  content_type_again (x ∷ v) = rw (ltb_pos (length v)) refl

  authorization_again :
      (v : Bytes)
      → set_all (range_field str_authorization v) (record m { authorization = [] })
        ≡ record m { authorization = v }
  unfolding set_all range_field set equal
  authorization_again [] = refl
  authorization_again (x ∷ v) = rw (ltb_pos (length v)) refl

abbrev stage : Bytes → Bytes → Bytes → Bytes → Bytes → FastSimpleMap
stage service host content_type authorization raw = record {
  authorization = authorization;
  service = service;
  host = host;
  content_type = content_type;
  kvs = [];
  raw = raw;
}

pub set_all-range :
    (m : FastSimpleMap) (raw : Bytes)
    → IsWellFormed m
    → set_all (range m) (record empty { raw = raw }) ≡ record m { raw = raw }
unfolding range empty
set_all-range m raw w =
    rw
      (
        set_all-append (range_field str_service m.service),
        set_all-append (range_field str_host m.host),
        set_all-append (range_field str_content_type m.content_type),
        set_all-append (range_field str_authorization m.authorization),
        service_again (stage [] [] [] [] raw) m.service,
        host_again (stage m.service [] [] [] raw) m.host,
        content_type_again (stage m.service m.host [] [] raw) m.content_type,
        authorization_again (stage m.service m.host m.content_type [] raw) m.authorization,
      )
      (set_all-range_kvs m.kvs [] (stage m.service m.host m.content_type m.authorization raw)
        (Distinct-Apart [] m.kvs w.distinct (Fresh-nil m.kvs)) w.plain)
