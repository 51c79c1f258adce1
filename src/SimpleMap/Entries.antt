-- ===== src/SimpleMap/Entries.antt =====
-- The wire form of a list of entries, and the size that the map computes for it.
use sofa_bolt_go.Base.{
  ◌+◌, ◌≡◌, refl, ap, inl, inr, Bool-cases, append-nil, List, [], ◌∷◌, ◌++◌, append_assoc, arith,
  Bytes, be32, ltb, length, length-append,
}
use sofa_bolt_go.SimpleMap.{
  FastSimpleMap, KvHeader, str_host, str_service, str_content_type, str_authorization, field_size,
  kvs_size, get_encode_size, range_field, range_kvs, range,
}

-- An entry is its key and its value, each behind its length in four big-endian bytes.
unfoldable pub entry_bytes : Bytes → Bytes → Bytes
entry_bytes k v = be32 (length k) ++ (k ++ (be32 (length v) ++ v))

unfoldable pub flat : List (Bytes × Bytes) → Bytes
flat [] = []
flat ((k, v) ∷ es) = entry_bytes k v ++ flat es

pub length-entry_bytes : (k v : Bytes) → length (entry_bytes k v) ≡ 8 + length k + length v
unfolding entry_bytes
length-entry_bytes k v = omega (arith, length-append k (be32 (length v) ++ v))

pub flat-append : (xs ys : List (Bytes × Bytes)) → flat (xs ++ ys) ≡ flat xs ++ flat ys
unfolding flat
flat-append [] ys = refl
flat-append ((k, v) ∷ xs) ys = rw (flat-append xs ys, append_assoc)

length-flat-append :
    (xs ys : List (Bytes × Bytes)) → length (flat (xs ++ ys)) ≡ length (flat xs) + length (flat ys)
length-flat-append xs ys = rw (flat-append xs ys) (length-append (flat xs) (flat ys))

length-range_field : (name v : Bytes) → length (flat (range_field name v)) ≡ field_size name v
unfolding flat range_field field_size
length-range_field name v = elim (Bool-cases (ltb 0 (length v))) [
  | inl there ↦
      rw there
        (omega (arith, length-entry_bytes name v, ap length (append-nil (entry_bytes name v))))
  | inr absent ↦ rw absent
]

length-range_kvs : (kvs : List KvHeader) → length (flat (range_kvs kvs)) ≡ kvs_size kvs
unfolding flat range_kvs kvs_size
length-range_kvs [] = refl
length-range_kvs (kv ∷ kvs) = omega (
  arith,
  length-append (entry_bytes kv.key kv.value) (flat (range_kvs kvs)),
  length-entry_bytes kv.key kv.value,
  length-range_kvs kvs,
)

-- `GetEncodeSize` is the length of the wire form of what `Range` visits.
pub length-flat-range : (m : FastSimpleMap) → length (flat (range m)) ≡ get_encode_size m
unfolding range get_encode_size
length-flat-range m =
    rw
      (
        length-flat-append (range_field str_service m.service) _,
        length-flat-append (range_field str_host m.host) _,
        length-flat-append (range_field str_content_type m.content_type) _,
        length-flat-append (range_field str_authorization m.authorization) _,
        length-range_field str_service m.service,
        length-range_field str_host m.host,
        length-range_field str_content_type m.content_type,
        length-range_field str_authorization m.authorization,
        length-range_kvs m.kvs,
      )
      (omega arith)
