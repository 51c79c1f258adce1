-- ===== src/Buffer/Cursor.antt =====
-- What the reads and writes of the buffer do at a cursor, with `p` before and `q` behind it.
use sofa_bolt_go.Base.{
  ℕ, ◌+◌, ◌≤◌, ◌<◌, ◌≡◌, refl, ap, ◌∙◌, some, true, false, ◌++◌, append_assoc, arith, Bytes, be32,
  uint32_at, length, take, drop, length-append, length-take, drop-append, length-drop,
  take-append_eq, drop-append_eq, drop-drop, overwrite, take-append-drop, take_within,
  overwrite-append, overwrite_within, le→leb, lt→leb,
}
use sofa_bolt_go.Buffer.{
  Buffer, fetched, not_enough, check, advance, slice, uint32, must_uint32, must_ref, uint32_string,
  must_put_uint32, must_put_bytes, must_put_uint32_string,
}

-- The buffer over `p ++ q` with the cursor behind `p`.
abbrev pub front : Bytes → Bytes → Bytes → Buffer
front p q s = record { pos = length p; bytes = p ++ q; spare = s }

front_lem :
    (p q s : Bytes) (n : ℕ) (bs : Bytes)
    → n ≡ length p
    → bs ≡ p ++ q
    → ◌≡◌ {A = Buffer} (record { pos = n; bytes = bs; spare = s }) (front p q s)
front_lem p q s n bs e f = cc

module _ (p q s : Bytes) where
  pub check_fits : (n : ℕ) → n ≤ length q → check (front p q s) n ≡ true
  unfolding check
  check_fits n h = rw length-append (le→leb (length p + n) (length p + length q) (omega arith))

  pub check_short : (n : ℕ) → length q < n → check (front p q s) n ≡ false
  unfolding check
  check_short n h = rw length-append (lt→leb (length p + n) (length p + length q) (omega arith))

  pub advance_lem :
      (n : ℕ) → n ≤ length q → advance (front p q s) n ≡ front (p ++ take n q) (drop n q) s
  unfolding advance
  advance_lem n h =
      front_lem (p ++ take n q) (drop n q) s (length p + n) (p ++ q)
        (rw (length-append, length-take n q h)) (rw (append_assoc, take-append-drop n q))

  -- `Uint32` with four bytes left, and with fewer.
  pub uint32_fits :
      4 ≤ length q
      → uint32 (front p q s) ≡ fetched (uint32_at q 0) (front (p ++ take 4 q) (drop 4 q) s)
  unfolding uint32
  uint32_fits h = rw (check_fits 4 h, advance_lem 4 h, drop-append)

  pub uint32_short : length q < 4 → uint32 (front p q s) ≡ not_enough
  unfolding uint32
  uint32_short h = rw (check_short 4 h)

  slice_fits : (n : ℕ) → n ≤ length q → slice (front p q s) n ≡ some (take n q)
  unfolding slice
  slice_fits n h =
      rw (le→leb (length p + n) (length (p ++ q) + length s) (omega (arith, length-append p q)))
        (rw (append_assoc, drop-append, take_within n q s h))

  pub must_ref_fits :
      (n : ℕ)
      → n ≤ length q
      → must_ref (front p q s) n ≡ some (take n q, front (p ++ take n q) (drop n q) s)
  unfolding must_ref
  must_ref_fits n h = rw (slice_fits n h) (rw (advance_lem n h))

  must_uint32_fits :
      4 ≤ length q
      → must_uint32 (front p q s) ≡ some (uint32_at q 0, front (p ++ take 4 q) (drop 4 q) s)
  unfolding must_uint32
  must_uint32_fits h =
      rw (le→leb (length p + 4) (length (p ++ q)) (omega (arith, length-append p q)))
        (rw (advance_lem 4 h, drop-append))

  overwrite_front :
      (src : Bytes)
      → length src ≤ length q
      → overwrite (p ++ q) (length p) src ≡ (p ++ src) ++ drop (length src) q
  overwrite_front src h = overwrite-append p q src h

  length_front :
      (src : Bytes)
      → length src ≤ length q
      → length (p ++ q) ≡ length ((p ++ src) ++ drop (length src) q)
  length_front src h = omega (
    arith,
    length-append p q,
    length-append (p ++ src) (drop (length src) q),
    length-append p src,
    length-drop (length src) q,
  )

  pub put_bytes_fits :
      (src : Bytes)
      → length src ≤ length q
      → must_put_bytes (front p q s) src ≡ some (front (p ++ src) (drop (length src) q) s)
  unfolding must_put_bytes
  put_bytes_fits src h =
      rw
        (
          le→leb (length p + length src) (length (p ++ q) + length s)
              (omega (arith, length-append p q)),
          overwrite_within (p ++ q) s (length p) src (omega (arith, length-append p q)),
          overwrite_front src h,
          take-append_eq _ _ s (length_front src h),
          drop-append_eq _ _ s (length_front src h),
        )
        (ap some (front_lem (p ++ src) _ s _ _ (rw length-append) refl))

  pub put_uint32_fits :
      (v : ℕ)
      → 4 ≤ length q
      → must_put_uint32 (front p q s) v ≡ some (front (p ++ be32 v) (drop 4 q) s)
  unfolding must_put_uint32
  put_uint32_fits v h =
      rw
        (
          le→leb (length p + 4) (length (p ++ q)) (omega (arith, length-append p q)),
          overwrite_front (be32 v) h,
        )
        (ap some (front_lem (p ++ be32 v) _ s _ _ (rw length-append) refl))

-- A length-prefixed string, written where it fits.
pub put_string_fits :
    (p q s str : Bytes)
    → 4 + length str ≤ length q
    → must_put_uint32_string (front p q s) str
      ≡ some (front (p ++ be32 (length str) ++ str) (drop (4 + length str) q) s)
unfolding must_put_uint32_string
put_string_fits p q s str h = rw (put_uint32_fits p q s (length str) (omega arith)) (
    put_bytes_fits (p ++ be32 (length str)) (drop 4 q) s str (omega (arith, length-drop 4 q))
    ∙ rw (append_assoc, drop-drop))

-- `Uint32String` on the bytes behind the cursor.
module _ (p q s : Bytes) where
  pub string_no_length : length q < 4 → uint32_string (front p q s) ≡ not_enough
  unfolding uint32_string
  string_no_length h = rw (check_short p q s 4 h)

  pub string_short :
      4 ≤ length q → length (drop 4 q) < uint32_at q 0 → uint32_string (front p q s) ≡ not_enough
  unfolding uint32_string
  string_short h l =
      rw (check_fits p q s 4 h, must_uint32_fits p q s h)
        (rw (check_short (p ++ take 4 q) (drop 4 q) s _ l))

  pub string_fits :
      4 ≤ length q
      → uint32_at q 0 ≤ length (drop 4 q)
      → uint32_string (front p q s)
        ≡ fetched (take (uint32_at q 0) (drop 4 q)) (
            front
              ((p ++ take 4 q) ++ take (uint32_at q 0) (drop 4 q))
              (drop (uint32_at q 0) (drop 4 q))
              s)
  unfolding uint32_string
  string_fits h l =
      rw (check_fits p q s 4 h, must_uint32_fits p q s h)
        (rw (
          check_fits (p ++ take 4 q) (drop 4 q) s _ l,
          must_ref_fits (p ++ take 4 q) (drop 4 q) s _ l,
        ))
