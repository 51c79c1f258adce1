-- ===== src/SimpleMap/Decode.antt =====
-- `Decode` is the reference parser: it does not panic, its loop ends, and its count `l` is the
-- bytes behind the cursor.
use sofa_bolt_go.Base.{
  ℕ, zero, suc, ◌+◌, ◌-◌, ◌<◌, ◌≡◌, refl, inl, inr, Bool-cases, false, Option, none, some, [], ◌∷◌,
  ◌++◌, arith, Bytes, u32_max, uint32_at, leb, ◌==◌, length, take, drop, leb→le, le→leb, ==_iff,
}
use sofa_bolt_go.Buffer.{fetched, Fetched, not_enough, new, uint32, uint32_string}
use sofa_bolt_go.Buffer.Cursor.{
  front, check_fits, check_short, uint32_fits, uint32_short, must_ref_fits, string_no_length,
  string_short, string_fits,
}
use sofa_bolt_go.SimpleMap.{
  FastSimpleMap, set, EntryRead, entry_read, entry_failed, decode_value, value_read, length_read,
  key_read, read_entry, decode_loop, decode,
}
use sofa_bolt_go.SimpleMap.Parse.{
  Split, entry, failed, take_bytes, sized_value, take_string, take_value, split_value, split_key,
  split, parse, split_parts,
}

-- A fetch at the cursor gives what the reference takes from `q`, and stops behind it.
abbrev Fetches : Bytes → Fetched Bytes → Option (Bytes × Bytes) → Type 0
Fetches s f none = f ≡ not_enough
Fetches s f (some (v, rest)) = (p : Bytes) × (f ≡ fetched v (front p rest s))

module _ (p q s : Bytes) where
  string_lem : Fetches s (uint32_string (front p q s)) (take_string q)
  unfolding take_string take_bytes
  string_lem = elim (Bool-cases (leb 4 (length q))) [
    | inr short ↦ rw short (string_no_length p q s (ground arith))
    | inl long ↦ elim (Bool-cases (leb (uint32_at q 0) (length (drop 4 q)))) [
      | inr short ↦ rw (long, short) (string_short p q s (leb→le _ _ long) (ground arith))
      | inl fits ↦ rw (long, fits) (_, string_fits p q s (leb→le _ _ long) (leb→le _ _ fits))
    ]
  ]

  value_lem : (n : ℕ) → Fetches s (decode_value (front p q s) n) (sized_value n q)
  unfolding decode_value sized_value take_bytes
  value_lem n = elim (Bool-cases (n == u32_max)) [
    | inl null ↦ rw null (p, refl)
    | inr real ↦ elim (Bool-cases (n == 0)) [
      | inl nothing ↦
          rw (real, nothing, le→leb n (length q) (ground arith), (==_iff n 0).0 nothing) (p, refl)
      | inr more ↦ elim (Bool-cases (leb n (length q))) [
        | inl fits ↦
            rw
              (
                real,
                more,
                fits,
                check_fits p q s n (leb→le n _ fits),
                must_ref_fits p q s n (leb→le n _ fits),
              )
              (_, refl)
        | inr short ↦ rw (real, more, short, check_short p q s n (ground arith)) refl
      ]
    ]
  ]

-- What a round of the loop reads is what the reference splits off.
abbrev Reads : Bytes → EntryRead → Split → Type 0
Reads s r (entry k v rest) = (p : Bytes) × (r ≡ entry_read k v (front p rest s))
Reads s r (failed e) = r ≡ entry_failed e

value_read-Reads :
    (s k : Bytes) (f : Fetched Bytes) (o : Option (Bytes × Bytes))
    → Fetches s f o
    → Reads s (value_read k f) (split_value k o)
unfolding value_read split_value
value_read-Reads s k f none e = rw e
value_read-Reads s k f (some (v, rest)) (p, e) = (p, rw e)

length_read-Reads :
    (p q s k : Bytes)
    → Reads s (length_read k (uint32 (front p q s))) (split_value k (take_value q))
unfolding length_read take_value split_value
length_read-Reads p q s k = elim (Bool-cases (leb 4 (length q))) [
  | inr short ↦ rw (short, uint32_short p q s (ground arith)) refl
  | inl long ↦
      rw (long, uint32_fits p q s (leb→le _ _ long))
        (value_read-Reads s k _ _ (value_lem (p ++ take 4 q) (drop 4 q) s (uint32_at q 0)))
]

key_read-Reads :
    (s : Bytes) (f : Fetched Bytes) (o : Option (Bytes × Bytes))
    → Fetches s f o
    → Reads s (key_read f) (split_key o)
unfolding key_read split_key
key_read-Reads s f none e = rw e
key_read-Reads s f (some (k, rest)) (p, e) = rw e (length_read-Reads p rest s k)

read_entry-Reads : (p q s : Bytes) → Reads s (read_entry (front p q s)) (split q)
unfolding read_entry split
read_entry-Reads p q s = key_read-Reads s _ _ (string_lem p q s)

suc_ne_zero : (n : ℕ) → (suc n == 0) ≡ false
suc_ne_zero n = ground arith

-- One round, at the entry or the error that the reference finds.
decode_step :
    (fuel : ℕ) (p s : Bytes) (x : ℕ) (q : Bytes) (m : FastSimpleMap) (sp : Split)
    → split (x ∷ q) ≡ sp
    → Reads s (read_entry (front p (x ∷ q) s)) sp
    → ((k v rest p' : Bytes)
        → length (x ∷ q) ≡ 8 + length k + length v + length rest
        → decode_loop fuel (length rest) (front p' rest s) (set k v m)
          ≡ some (parse fuel rest (set k v m)))
    → decode_loop (suc fuel) (length (x ∷ q)) (front p (x ∷ q) s) m
      ≡ some (parse (suc fuel) (x ∷ q) m)
unfolding decode_loop parse
decode_step fuel p s x q m (failed e) es r rec =
    rw (suc_ne_zero (length q), r, es, decode_loop, parse) refl
decode_step fuel p s x q m (entry k v rest) es (p', r) rec =
    let size = split_parts (x ∷ q) k v rest es in
    let left : length (x ∷ q) - 4 - length k - 4 - length v ≡ length rest = omega arith in
    rw (suc_ne_zero (length q), r, es, decode_loop, parse) (rw left (rec k v rest p' size))

-- The loop from the cursor is the reference on the bytes behind it.
decode_loop-parse :
    (fuel : ℕ) (p q s : Bytes) (m : FastSimpleMap)
    → length q < fuel
    → decode_loop fuel (length q) (front p q s) m ≡ some (parse fuel q m)
decode_loop-parse zero p q s m h = absurd (omega arith)
decode_loop-parse (suc fuel) p [] s m h = unfold decode_loop parse in refl
decode_loop-parse (suc fuel) p (x ∷ q) s m h =
    decode_step fuel p s x q m (split (x ∷ q)) refl (read_entry-Reads p (x ∷ q) s)
      λ k v rest p' size. decode_loop-parse fuel p' rest s (set k v m) (omega arith)

-- `Decode` of any bytes into any map neither panics nor runs on: it is the reference parser.
pub decode-parse :
    (m : FastSimpleMap) (bytes spare : Bytes)
    → decode m bytes spare ≡ some (parse (suc (length bytes)) bytes (record m { raw = bytes }))
unfolding decode new
decode-parse m bytes spare =
    decode_loop-parse (suc (length bytes)) [] bytes spare (record m { raw = bytes }) (omega arith)
