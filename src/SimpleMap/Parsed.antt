-- ===== src/SimpleMap/Parsed.antt =====
-- What any input leaves in a map: the parser keeps it well formed.
use sofa_bolt_go.Base.{
  ℕ, zero, suc, ◌≤◌, ◌<◌, ◌≡◌, refl, Option, none, some, [], ◌∷◌, arith, Bytes, u32_max, uint32_at,
  length, drop, length-take, AreBytes, AreBytes-drop, uint32_at-le,
}
use sofa_bolt_go.SimpleMap.{FastSimpleMap, set, DecodeError, decode}
use sofa_bolt_go.SimpleMap.Decode.{decode-parse}
use sofa_bolt_go.SimpleMap.Parse.{
  Split, entry, failed, take_bytes, sized_value, take_string, take_value, split_value, split_key,
  split, parse,
}
use sofa_bolt_go.SimpleMap.Invariant.{IsWellFormed, set-IsWellFormed}

take_bytes_bound :
    (n : ℕ) (q v rest : Bytes)
    → take_bytes n q ≡ some (v, rest)
    → AreBytes q
    → (length v ≤ n) × AreBytes rest
unfolding take_bytes
take_bytes_bound n q v rest e h = ground (arith, length-take n q, AreBytes-drop n q h)

take_string_bound :
    (q k rest : Bytes)
    → take_string q ≡ some (k, rest)
    → AreBytes q
    → (length k ≤ u32_max) × AreBytes rest
unfolding take_string
take_string_bound q k rest e h = ground (
  arith,
  uint32_at-le q 0 h,
  AreBytes-drop 4 q h,
  take_bytes_bound (uint32_at q 0) (drop 4 q) k rest,
)

take_value_bound :
    (q v rest : Bytes)
    → take_value q ≡ some (v, rest)
    → AreBytes q
    → (length v < u32_max) × AreBytes rest
unfolding take_value sized_value
take_value_bound q v rest e h = ground (
  arith,
  uint32_at-le q 0 h,
  AreBytes-drop 4 q h,
  take_bytes_bound (uint32_at q 0) (drop 4 q) v rest,
)

record Bounded (k v rest : Bytes) : Type 0 where
  key : length k ≤ u32_max
  value : length v < u32_max
  left : AreBytes rest

split_value_bound :
    (k' q k v rest : Bytes) (o : Option (Bytes × Bytes))
    → take_value q ≡ o
    → split_value k' o ≡ entry k v rest
    → length k' ≤ u32_max
    → AreBytes q
    → Bounded k v rest
unfolding split_value
split_value_bound k' q k v rest none e f hk h = cc
split_value_bound k' q k v rest (some (v', rest')) e f hk h =
    ground (arith, take_value_bound q v' rest' e h)

split_key_bound :
    (q k v rest : Bytes) (o : Option (Bytes × Bytes))
    → take_string q ≡ o
    → split_key o ≡ entry k v rest
    → AreBytes q
    → Bounded k v rest
unfolding split_key
split_key_bound q k v rest none e f h = cc
split_key_bound q k v rest (some (k', r)) e f h =
    let (hk, hr) = take_string_bound q k' r e h in
    split_value_bound k' r k v rest (take_value r) refl f hk hr

split_bound : (q k v rest : Bytes) → split q ≡ entry k v rest → AreBytes q → Bounded k v rest
unfolding split
split_bound q k v rest e h = split_key_bound q k v rest (take_string q) refl e h

pub parse-IsWellFormed :
    (fuel : ℕ) (q : Bytes) (m : FastSimpleMap)
    → AreBytes q
    → IsWellFormed m
    → IsWellFormed (parse fuel q m).1
unfolding parse
parse-IsWellFormed fuel [] m h w = w
parse-IsWellFormed zero (x ∷ q) m h w = w
parse-IsWellFormed (suc fuel) (x ∷ q) m h w = go (split (x ∷ q)) refl λ k v rest b.
    parse-IsWellFormed fuel rest (set k v m) b.left (set-IsWellFormed k v m b.key b.value w)
  where
    go :
        (sp : Split)
        → split (x ∷ q) ≡ sp
        → ((k v rest : Bytes) → Bounded k v rest → IsWellFormed (parse fuel rest (set k v m)).1)
        → IsWellFormed (parse (suc fuel) (x ∷ q) m).1
    go (failed e) s rec = rw (s, parse) w
    go (entry k v rest) s rec = rw (s, parse) (rec k v rest (split_bound (x ∷ q) k v rest s h))

-- `Decode` of any bytes into a well-formed map ends without a panic, and the map is well formed
-- afterwards, also where an error ends the decoding half way.
pub decode-IsWellFormed :
    (m : FastSimpleMap) (bytes spare : Bytes)
    → AreBytes bytes
    → IsWellFormed m
    → (e : Option DecodeError) × (m' : FastSimpleMap) × (decode m bytes spare ≡ some (e, m'))
      × IsWellFormed m'
decode-IsWellFormed m bytes spare h w =
    let fuel = suc (length bytes) in
    let m0 = record m { raw = bytes } in
    let (e, m') = parse fuel bytes m0 in
    (e, m', decode-parse m bytes spare, parse-IsWellFormed fuel bytes m0 h (with_raw m bytes w))
  where
    with_raw :
        (m : FastSimpleMap) (raw : Bytes) → IsWellFormed m → IsWellFormed (record m { raw = raw })
    with_raw m raw w = record {
      distinct = w.distinct;
      plain = w.plain;
      fits = w.fits;
      fits_host = w.fits_host;
      fits_content_type = w.fits_content_type;
      fits_service = w.fits_service;
      fits_authorization = w.fits_authorization;
    }
