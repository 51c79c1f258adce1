-- ===== src/SimpleMap/Removal.antt =====
-- `Del`, on what the slots hold, and the keys being different, without which it would leave some.
use sofa_bolt_go.Base.{
  ◌≡◌, refl, inl, inr, Bool, false, ◌||◌, List, [], ◌∷◌, arith, Bytes, equal, equal_iff, equal→≡,
  if◌then◌else◌, Bool-cases,
}
use sofa_bolt_go.SimpleMap.{
  FastSimpleMap, KvHeader, str_host, str_content_type, str_service, str_authorization, set_kv, set,
}

-- The entry behind one taken out is not looked at.
unfoldable pub del_kv : Bytes → List KvHeader → List KvHeader
del_kv k [] = []
del_kv k (kv ∷ []) = if equal kv.key k then [] else kv ∷ []
del_kv k (kv ∷ next ∷ kvs) =
    let taken = del_kv k kvs in
    let kept = del_kv k (next ∷ kvs) in if equal kv.key k then next ∷ taken else kv ∷ kept

unfoldable pub del : Bytes → FastSimpleMap → FastSimpleMap
del k m =
    if equal k str_host
    then record m { host = [] }
    else if equal k str_content_type
    then record m { content_type = [] }
    else if equal k str_service
    then record m { service = [] }
    else if equal k str_authorization
    then record m { authorization = [] }
    else record m { kvs = del_kv k m.kvs }

unfoldable pub has_key : Bytes → List KvHeader → Bool
has_key k [] = false
has_key k (kv ∷ kvs) = equal kv.key k || has_key k kvs

-- No key has two entries.
unfoldable pub AreDistinct : List KvHeader → Type 0
AreDistinct [] = Unit
AreDistinct (kv ∷ kvs) = (has_key kv.key kvs ≡ false) × AreDistinct kvs

has_key-set_kv :
    (k j v : Bytes) (kvs : List KvHeader)
    → has_key j (set_kv k v kvs) ≡ (equal k j || has_key j kvs)
unfolding has_key set_kv
has_key-set_kv k j v [] = refl
has_key-set_kv k j v (kv ∷ kvs) =
    ground (arith, equal_iff kv.key k, equal_iff k j, equal_iff kv.key j, has_key-set_kv k j v kvs)

pub set_kv-AreDistinct :
    (k v : Bytes) (kvs : List KvHeader) → AreDistinct kvs → AreDistinct (set_kv k v kvs)
unfolding set_kv AreDistinct has_key
set_kv-AreDistinct k v [] d = (refl, tt)
set_kv-AreDistinct k v (kv ∷ kvs) (h, d) = elim (Bool-cases (equal kv.key k)) [
  | inl e ↦ rw e (h, d)
  | inr e ↦ rw e (
    ground (arith, has_key-set_kv k kv.key v kvs, h, e, equal_iff kv.key k, equal_iff k kv.key),
    set_kv-AreDistinct k v kvs d,
  )
]

-- `Set` leaves no key with two entries where there was none.
pub set-AreDistinct :
    (k v : Bytes) (m : FastSimpleMap) → AreDistinct m.kvs → AreDistinct (set k v m).kvs
unfolding set
set-AreDistinct k v m d = ground (arith, set_kv-AreDistinct k v m.kvs)

pub del_kv-absent : (k : Bytes) (kvs : List KvHeader) → has_key k kvs ≡ false → del_kv k kvs ≡ kvs
unfolding del_kv has_key
del_kv-absent k [] h = refl
del_kv-absent k (kv ∷ []) h = ground arith
del_kv-absent k (kv ∷ next ∷ kvs) h = ground (arith, del_kv-absent k (next ∷ kvs))

module _ (k : Bytes) where
  del_kv-cons :
      (kv : KvHeader) (kvs : List KvHeader)
      → AreDistinct (kv ∷ kvs)
      → del_kv k (kv ∷ kvs) ≡ (if equal kv.key k then kvs else kv ∷ del_kv k kvs)
  unfolding del_kv AreDistinct has_key
  del_kv-cons kv [] d = refl
  del_kv-cons kv (next ∷ kvs) (h, d) = ground (arith, equal→≡ kv.key k, del_kv-absent k kvs)

  has_key-del_kv :
      (j : Bytes) (kvs : List KvHeader)
      → AreDistinct kvs
      → has_key j kvs ≡ false
      → has_key j (del_kv k kvs) ≡ false
  unfolding has_key AreDistinct del_kv
  has_key-del_kv j [] d h = refl
  has_key-del_kv j (kv ∷ kvs) d h = rw (del_kv-cons kv kvs d) (ground (arith, has_key-del_kv j kvs))

  pub del_kv-AreDistinct : (kvs : List KvHeader) → AreDistinct kvs → AreDistinct (del_kv k kvs)
  unfolding AreDistinct del_kv
  del_kv-AreDistinct [] d = tt
  del_kv-AreDistinct (kv ∷ kvs) d = rw (del_kv-cons kv kvs d) (elim (Bool-cases (equal kv.key k)) [
    | inl e ↦ rw e (d.1)
    | inr e ↦ rw e (has_key-del_kv kv.key kvs d.1 d.0, del_kv-AreDistinct kvs d.1)
  ])
