-- ===== src/SimpleMap/Parse.antt =====
-- A reference parser for the wire form: it works on the bytes that are left, with no cursor, no
-- count of its own and no panic.
use sofa_bolt_go.Base.{
  ℕ, zero, suc, ◌+◌, ◌≡◌, refl, ap, Option, none, some, [], ◌∷◌, arith, Bytes, u32_max, uint32_at,
  leb, ◌==◌, if◌then◌else◌, length, take, drop, length-drop, length-take,
}
use sofa_bolt_go.SimpleMap.{FastSimpleMap, DecodeError, key_failed, value_failed, set}

unfoldable pub take_bytes : ℕ → Bytes → Option (Bytes × Bytes)
take_bytes n q = if leb n (length q) then some (take n q, drop n q) else none

-- A value of a given length: 2^32 - 1 stands for the empty value.
unfoldable pub sized_value : ℕ → Bytes → Option (Bytes × Bytes)
sized_value n q = if n == u32_max then some ([], q) else take_bytes n q

-- A string behind its length, and the bytes behind it.
unfoldable pub take_string : Bytes → Option (Bytes × Bytes)
take_string q = if leb 4 (length q) then take_bytes (uint32_at q 0) (drop 4 q) else none

unfoldable pub take_value : Bytes → Option (Bytes × Bytes)
take_value q = if leb 4 (length q) then sized_value (uint32_at q 0) (drop 4 q) else none

pub data Split : Type 0 where
  entry : Bytes → Bytes → Bytes → Split
  failed : DecodeError → Split

unfoldable pub split_value : Bytes → Option (Bytes × Bytes) → Split
split_value k none = failed value_failed
split_value k (some (v, rest)) = entry k v rest

unfoldable pub split_key : Option (Bytes × Bytes) → Split
split_key none = failed key_failed
split_key (some (k, rest)) = split_value k (take_value rest)

unfoldable pub split : Bytes → Split
split q = split_key (take_string q)

-- All entries, each handed to `set`. An entry has at least eight bytes, so a byte of fuel for each
-- byte is enough.
unfoldable pub parse : ℕ → Bytes → FastSimpleMap → Option DecodeError × FastSimpleMap
parse fuel [] m = (none, m)
parse zero (x ∷ q) m = (none, m)
parse (suc fuel) (x ∷ q) m = elim (split (x ∷ q)) [
  | entry k v rest ↦ parse fuel rest (set k v m)
  | failed e ↦ (some e, m)
]

take_bytes_parts :
    (n : ℕ) (q v rest : Bytes) → take_bytes n q ≡ some (v, rest) → length q ≡ length v + length rest
unfolding take_bytes
take_bytes_parts n q v rest e = ground (arith, length-take n q, length-drop n q)

pub take_string_parts :
    (q k rest : Bytes) → take_string q ≡ some (k, rest) → length q ≡ 4 + length k + length rest
unfolding take_string
take_string_parts q k rest e =
    ground (arith, length-drop 4 q, take_bytes_parts (uint32_at q 0) (drop 4 q) k rest)

pub take_value_parts :
    (q v rest : Bytes) → take_value q ≡ some (v, rest) → length q ≡ 4 + length v + length rest
unfolding take_value sized_value
take_value_parts q v rest e =
    ground (arith, length-drop 4 q, take_bytes_parts (uint32_at q 0) (drop 4 q) v rest)

value_parts :
    (q k' k v rest : Bytes) (o : Option (Bytes × Bytes))
    → take_value q ≡ o
    → split_value k' o ≡ entry k v rest
    → (k' ≡ k) × (length q ≡ 4 + length v + length rest)
unfolding split_value
value_parts q k' k v rest none e f = cc
value_parts q k' k v rest (some (v', rest')) e f = ground (arith, take_value_parts q v' rest')

key_parts :
    (q k v rest : Bytes) (o : Option (Bytes × Bytes))
    → take_string q ≡ o
    → split_key o ≡ entry k v rest
    → length q ≡ 8 + length k + length v + length rest
unfolding split_key
key_parts q k v rest none e f = cc
key_parts q k v rest (some (k', r)) e f =
    let (same, size) = value_parts r k' k v rest (take_value r) refl f in
    omega (arith, take_string_parts q k' r e, ap length same)

-- An entry takes its two lengths and its bytes.
pub split_parts :
    (q k v rest : Bytes)
    → split q ≡ entry k v rest
    → length q ≡ 8 + length k + length v + length rest
unfolding split
split_parts q k v rest e = key_parts q k v rest (take_string q) refl e
