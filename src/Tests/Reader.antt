-- ===== src/Tests/Reader.antt =====
-- The reader helper over a list of bytes: it stands for the package that the codec calls.
use sofa_bolt_go.Base.{
  ℕ, ◌+◌, ◌*◌, ◌<◌, ◌≡◌, refl, Option, none, some, [], ◌∷◌, ◌++◌, arith, Bytes, be32, from_be32,
  leb, leb→le, le→leb, Bool-cases, inl, inr, if◌then◌else◌, length, length-append, length-take,
  length-replicate, replicate, take, drop, take-append, drop-append,
}
use sofa_bolt_go.ReadHelper.{ReadHelper, IsDocumented}

abbrev pub alloc : Bytes → ℕ → Bytes
alloc b n = take n (b ++ replicate n 0)

pub read_to : Bytes → ℕ → Bytes → Option (Unit {0}) × Bytes × Bytes
read_to r n b =
    if leb n (length r) then (none, take n r ++ drop n b, drop n r) else (some tt, b, [])

pub read_one : Bytes → ℕ × Option (Unit {0}) × Bytes
read_one [] = (0, some tt, [])
read_one (x ∷ rest) = (x, none, rest)

pub read_four : Bytes → ℕ × Option (Unit {0}) × Bytes
read_four (x ∷ y ∷ z ∷ w ∷ rest) = (x * 16777216 + y * 65536 + z * 256 + w, none, rest)
read_four r = (0, some tt, [])

abbrev pub bytes_reader : ReadHelper
bytes_reader = record {
  Reader = Bytes;
  IoError = Unit {0};
  alloc_to_at_least = alloc;
  read_to_bytes = read_to;
  read_uint8 = read_one;
  read_big_endian_uint32 = read_four;
}

length-alloc : (b : Bytes) (n : ℕ) → length (alloc b n) ≡ n
length-alloc b n =
    length-take n (b ++ replicate n 0)
      (omega (arith, length-append b (replicate n 0), length-replicate {A = ℕ} n 0))

read_full :
    (xs rest b : Bytes)
    → read_to (xs ++ rest) (length xs) b ≡ (none, xs ++ drop (length xs) b, rest)
unfolding read_to
read_full xs rest b =
    rw
      (
        le→leb (length xs) (length (xs ++ rest)) (omega (arith, length-append xs rest)),
        take-append xs rest,
        drop-append xs rest,
      )
      refl

read_short : (xs : Bytes) (n : ℕ) (b : Bytes) → length xs < n → read_to xs n b ≡ (some tt, b, [])
unfolding read_to
read_short xs n b h = elim (Bool-cases (leb n (length xs))) [
  | inl fits ↦ absurd (omega (arith, leb→le n (length xs) fits))
  | inr short ↦ rw short refl
]

four_full : (v : ℕ) (rest : Bytes) → v < 4294967296 → read_four (be32 v ++ rest) ≡ (v, none, rest)
unfolding read_four
four_full v rest h = rw (from_be32 v h) refl

four_short : (xs : Bytes) → length xs < 4 → read_four xs ≡ (0, some tt, [])
unfolding read_four
four_short [] h = refl
four_short (x ∷ []) h = refl
four_short (x ∷ y ∷ []) h = refl
four_short (x ∷ y ∷ z ∷ []) h = refl
four_short (x ∷ y ∷ z ∷ w ∷ rest) h = absurd (omega arith)

-- What the codec relies on holds of it.
pub bytes_reader-IsDocumented : IsDocumented bytes_reader
unfolding read_one
bytes_reader-IsDocumented = record {
  stream = λ bs. bs;
  length-alloc = length-alloc;
  read_full = λ xs rest b h. read_full xs rest b;
  read_short = λ xs n b h. (tt, b, [], read_short xs n b h);
  uint8_full = λ x rest. refl;
  uint8_end = (tt, 0, [], refl);
  uint32_full = four_full;
  uint32_short = λ xs h. (tt, 0, [], four_short xs h);
}
