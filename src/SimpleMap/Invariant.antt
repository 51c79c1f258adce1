-- ===== src/SimpleMap/Invariant.antt =====
-- The shape that `Set` and `Decode` give the map: the keys of `kvs` are distinct, none is one of
-- the four with a field of their own, and every length fits the wire form.
use sofa_bolt_go.Base.{
  ◌≤◌, ◌<◌, ◌≡◌, inl, inr, Bool-cases, false, ◌||◌, Bool, List, [], ◌∷◌, arith, Bytes, equal,
  equal_iff, u32_max, length,
}
use sofa_bolt_go.SimpleMap.{
  FastSimpleMap, KvHeader, str_host, str_content_type, str_service, str_authorization, empty,
  set_kv, set,
}

-- One of the four keys that `set` and `get` switch on.
abbrev pub is_special : Bytes → Bool
is_special k =
    equal k str_host || equal k str_content_type || equal k str_service || equal k str_authorization

-- No entry has the key `k`.
abbrev pub Absent : Bytes → List KvHeader → Type 0
Absent k [] = Unit
Absent k (kv ∷ kvs) = (equal kv.key k ≡ false) × Absent k kvs

abbrev pub Distinct : List KvHeader → Type 0
Distinct [] = Unit
Distinct (kv ∷ kvs) = Absent kv.key kvs × Distinct kvs

-- A value of 2^32 - 1 bytes would be read back as the empty value.
abbrev pub FitsValue : Bytes → Type 0
FitsValue v = length v < u32_max

abbrev pub Fits : List KvHeader → Type 0
Fits [] = Unit
Fits (kv ∷ kvs) = (length kv.key ≤ u32_max) × FitsValue kv.value × Fits kvs

abbrev pub Plain : List KvHeader → Type 0
Plain [] = Unit
Plain (kv ∷ kvs) = (is_special kv.key ≡ false) × Plain kvs

pub record IsWellFormed (m : FastSimpleMap) : Type 0 where
  pub distinct : Distinct m.kvs
  pub plain : Plain m.kvs
  pub fits : Fits m.kvs
  pub fits_host : FitsValue m.host
  pub fits_content_type : FitsValue m.content_type
  pub fits_service : FitsValue m.service
  pub fits_authorization : FitsValue m.authorization

pub empty-IsWellFormed : (raw : Bytes) → IsWellFormed (record empty { raw = raw })
unfolding empty
empty-IsWellFormed raw = record {
  distinct = tt;
  plain = tt;
  fits = tt;
  fits_host = omega arith;
  fits_content_type = omega arith;
  fits_service = omega arith;
  fits_authorization = omega arith;
}

set_kv-Absent :
    (j k v : Bytes) (kvs : List KvHeader)
    → equal k j ≡ false
    → Absent j kvs
    → Absent j (set_kv k v kvs)
unfolding set_kv
set_kv-Absent j k v [] h a = (h, tt)
set_kv-Absent j k v (kv ∷ kvs) h (n, a) = elim (Bool-cases (equal kv.key k)) [
  | inl same ↦ rw same (n, a)
  | inr other ↦ rw other (n, set_kv-Absent j k v kvs h a)
]

set_kv-Distinct : (k v : Bytes) (kvs : List KvHeader) → Distinct kvs → Distinct (set_kv k v kvs)
unfolding set_kv
set_kv-Distinct k v [] d = (tt, tt)
set_kv-Distinct k v (kv ∷ kvs) (a, d) = elim (Bool-cases (equal kv.key k)) [
  | inl same ↦ rw same (a, d)
  | inr other ↦ rw other (
    set_kv-Absent kv.key k v kvs (ground (arith, equal_iff kv.key k, equal_iff k kv.key)) a,
    set_kv-Distinct k v kvs d,
  )
]

set_kv-Plain :
    (k v : Bytes) (kvs : List KvHeader) → is_special k ≡ false → Plain kvs → Plain (set_kv k v kvs)
unfolding set_kv
set_kv-Plain k v [] h p = (h, tt)
set_kv-Plain k v (kv ∷ kvs) h (n, p) = elim (Bool-cases (equal kv.key k)) [
  | inl same ↦ rw same (n, p)
  | inr other ↦ rw other (n, set_kv-Plain k v kvs h p)
]

set_kv-Fits :
    (k v : Bytes) (kvs : List KvHeader)
    → length k ≤ u32_max
    → FitsValue v
    → Fits kvs
    → Fits (set_kv k v kvs)
unfolding set_kv
set_kv-Fits k v [] hk hv f = (hk, hv, tt)
set_kv-Fits k v (kv ∷ kvs) hk hv (a, b, f) = elim (Bool-cases (equal kv.key k)) [
  | inl same ↦ rw same (a, hv, f)
  | inr other ↦ rw other (a, b, set_kv-Fits k v kvs hk hv f)
]

-- `Set` with a key and a value that fit keeps the map well formed.
pub set-IsWellFormed :
    (k v : Bytes) (m : FastSimpleMap)
    → length k ≤ u32_max
    → length v < u32_max
    → IsWellFormed m
    → IsWellFormed (set k v m)
unfolding set
set-IsWellFormed k v m hk hv w = ground (
  arith,
  set_kv-Distinct k v m.kvs w.distinct,
  set_kv-Plain k v m.kvs,
  set_kv-Fits k v m.kvs hk hv w.fits,
)
