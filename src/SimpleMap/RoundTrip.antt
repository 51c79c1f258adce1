-- ===== src/SimpleMap/RoundTrip.antt =====
-- `Decode` after `Encode`.
use sofa_bolt_go.Base.{
  ℕ, zero, suc, ◌+◌, ◌≤◌, ◌<◌, ◌≡◌, refl, ap, ◌∙◌, inl, inr, Bool-cases, none, some, List, [], ◌∷◌,
  ◌++◌, append-nil, append_assoc, arith, Bytes, be32, from_be32, ltb, u32_max, le→leb, length, drop,
  drop_all, length-append, take-append, drop-append,
}
use sofa_bolt_go.Buffer.{Buffer}
use sofa_bolt_go.SimpleMap.{
  FastSimpleMap, KvHeader, str_host, str_content_type, str_service, str_authorization, empty, set,
  range_field, range_kvs, range, get_encode_size, encode, decode,
}
use sofa_bolt_go.SimpleMap.Entries.{entry_bytes, flat, length-entry_bytes, length-flat-range}
use sofa_bolt_go.SimpleMap.Parse.{
  entry, take_bytes, sized_value, take_string, take_value, split_value, split_key, split, parse,
}
use sofa_bolt_go.SimpleMap.Invariant.{Fits, FitsValue, IsWellFormed}
use sofa_bolt_go.SimpleMap.Rebuild.{set_all, set_all-range}
use sofa_bolt_go.SimpleMap.Encode.{encode-flat}
use sofa_bolt_go.SimpleMap.Decode.{decode-parse}

take_bytes-append : (v rest : Bytes) → take_bytes (length v) (v ++ rest) ≡ some (v, rest)
unfolding take_bytes
take_bytes-append v rest =
    rw (le→leb (length v) (length (v ++ rest)) (omega (arith, length-append v rest)))
      (rw (take-append, drop-append))

take_string-append :
    (k rest : Bytes)
    → length k ≤ u32_max
    → take_string (be32 (length k) ++ (k ++ rest)) ≡ some (k, rest)
unfolding take_string
take_string-append k rest h =
    rw (from_be32 (length k) (omega arith)) (ground (arith, take_bytes-append k rest))

take_value-append :
    (v rest : Bytes)
    → length v < u32_max
    → take_value (be32 (length v) ++ (v ++ rest)) ≡ some (v, rest)
unfolding take_value sized_value
take_value-append v rest h =
    rw (from_be32 (length v) (omega arith)) (ground (arith, take_bytes-append v rest))

entry_bytes-append :
    (k v rest : Bytes)
    → entry_bytes k v ++ rest ≡ be32 (length k) ++ (k ++ (be32 (length v) ++ (v ++ rest)))
unfolding entry_bytes
entry_bytes-append k v rest = simp append_assoc

split-append :
    (k v rest : Bytes)
    → length k ≤ u32_max
    → length v < u32_max
    → split (entry_bytes k v ++ rest) ≡ entry k v rest
unfolding split split_key split_value
split-append k v rest hk hv = rw (entry_bytes-append k v rest) (
    rw (take_string-append k (be32 (length v) ++ (v ++ rest)) hk)
      (rw (take_value-append v rest hv)))

abbrev FitsAll : List (Bytes × Bytes) → Type 0
FitsAll [] = Unit
FitsAll ((k, v) ∷ es) = (length k ≤ u32_max) × (length v < u32_max) × FitsAll es

nonempty_parse :
    (fuel : ℕ) (k v : Bytes) (q rest : Bytes) (m : FastSimpleMap)
    → split q ≡ entry k v rest
    → 0 < length q
    → parse (suc fuel) q m ≡ parse fuel rest (set k v m)
unfolding parse
nonempty_parse fuel k v [] rest m e h = absurd (omega arith)
nonempty_parse fuel k v (x ∷ q) rest m e h = rw (e, parse) refl

-- The reference parser reads back a list of entries that fit.
parse-flat :
    (fuel : ℕ) (es : List (Bytes × Bytes)) (m : FastSimpleMap)
    → length (flat es) ≤ fuel
    → FitsAll es
    → parse fuel (flat es) m ≡ (none, set_all es m)
unfolding flat set_all
parse-flat fuel [] m h f = unfold parse in refl
parse-flat zero ((k, v) ∷ es) m h f =
    absurd (omega (arith, length-append (entry_bytes k v) (flat es), length-entry_bytes k v))
parse-flat (suc fuel) ((k, v) ∷ es) m h (hk, hv, f) =
    let size : length (entry_bytes k v ++ flat es) ≡ 8 + length k + length v + length (flat es) =
      omega (arith, length-append (entry_bytes k v) (flat es), length-entry_bytes k v) in
    nonempty_parse fuel k v (entry_bytes k v ++ flat es) (flat es) m
      (split-append k v (flat es) hk hv) (omega arith)
    ∙ parse-flat fuel es (set k v m) (omega arith) f

FitsAll-append : (xs ys : List (Bytes × Bytes)) → FitsAll xs → FitsAll ys → FitsAll (xs ++ ys)
FitsAll-append [] ys f g = g
FitsAll-append ((k, v) ∷ xs) ys (hk, hv, f) g = (hk, hv, FitsAll-append xs ys f g)

range_field-FitsAll :
    (name v : Bytes) → length name ≤ u32_max → FitsValue v → FitsAll (range_field name v)
unfolding range_field
range_field-FitsAll name v hn hv = elim (Bool-cases (ltb 0 (length v))) [
  | inl there ↦ rw there (hn, hv, tt)
  | inr absent ↦ rw absent tt
]

range_kvs-FitsAll : (kvs : List KvHeader) → Fits kvs → FitsAll (range_kvs kvs)
unfolding range_kvs
range_kvs-FitsAll [] f = tt
range_kvs-FitsAll (kv ∷ kvs) (hk, hv, f) = (hk, hv, range_kvs-FitsAll kvs f)

range-FitsAll : (m : FastSimpleMap) → IsWellFormed m → FitsAll (range m)
unfolding range
range-FitsAll m w =
    FitsAll-append _ _ (range_field-FitsAll str_service m.service (omega arith) w.fits_service) (
      FitsAll-append _ _ (range_field-FitsAll str_host m.host (omega arith) w.fits_host) (
        FitsAll-append _ _
          (range_field-FitsAll str_content_type m.content_type (omega arith) w.fits_content_type)
          (FitsAll-append _ _
            (range_field-FitsAll str_authorization m.authorization (omega arith)
              w.fits_authorization)
            (range_kvs-FitsAll m.kvs w.fits))))

-- `Decode` into an empty map of the wire form of a well-formed map.
pub decode-flat :
    (m : FastSimpleMap) (spare : Bytes)
    → IsWellFormed m
    → decode empty (flat (range m)) spare ≡ some (none, record m { raw = flat (range m) })
decode-flat m spare w =
    decode-parse empty (flat (range m)) spare
    ∙ ap some (
        parse-flat (suc (length (flat (range m)))) (range m) (record empty { raw = flat (range m) })
          (omega arith) (range-FitsAll m w))
    ∙ rw (set_all-range m (flat (range m)) w)

-- A well-formed map encoded into a slice of exactly `GetEncodeSize` bytes, and decoded into an empty
-- map: neither step fails, the encoder fills the slice, and every field comes back, in order.
pub decode-encode :
    (m : FastSimpleMap) (bytes spare spare' : Bytes)
    → IsWellFormed m
    → length bytes ≡ get_encode_size m
    → (b : Buffer) × (encode m bytes spare ≡ some (get_encode_size m, b))
      × (length b.bytes ≡ get_encode_size m)
      × (decode empty b.bytes spare' ≡ some (none, record m { raw = b.bytes }))
decode-encode m bytes spare spare' w size = (
  record { pos = get_encode_size m; bytes = flat (range m); spare = spare },
  encode-flat m bytes spare (omega (arith, size)) ∙ rw exact,
  length-flat-range m,
  decode-flat m spare' w,
)
  where
    exact : flat (range m) ++ drop (get_encode_size m) bytes ≡ flat (range m)
    exact = rw (drop_all (get_encode_size m) bytes (omega (arith, size)), append-nil)
