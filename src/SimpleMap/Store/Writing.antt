-- ===== src/SimpleMap/Store/Writing.antt =====
-- What `append` to a slice cut to length 0 writes, and what it leaves alone.
use sofa_bolt_go.Base.{
  ℕ, ◌+◌, ◌≤◌, ◌<◌, ◌≡◌, refl, ap, sym, subst, ◌∙◌, ◌⊎◌, inl, inr, Bool, true, false, [], ◌∷◌, ◌++◌,
  arith, Bytes, leb, leb→le, ◌==◌, Bool-cases, length, take, drop, replicate, overwrite-append,
  take-append,
}
use sofa_bolt_go.SimpleMap.Store.{
  Slice, nil, slice, Store, Runtime, Appended, update, bytes_of, cap, write_over, append_to,
}

-- Is the array the slice's?
abbrev pub owns : Slice → ℕ → Bool
owns nil r = false
owns (slice a n) r = a == r

module _ (rt : Runtime) (s : Slice) (v : Bytes) (st : Store) where
  in_place : leb (length v) (cap st s) ≡ true → append_to rt s v st ≡ write_over s v st
  unfolding append_to
  in_place h = rw h refl

  unfoldable grown : Appended
  grown = record {
    slice = slice st.next (length v);
    store = record st {
      next = st.next + 1;
      arrays = update st.arrays st.next (v ++ replicate (rt.spare (cap st s) (length v)) 0);
    };
  }

  moved : leb (length v) (cap st s) ≡ false → append_to rt s v st ≡ grown
  unfolding append_to grown
  moved h = rw h refl

  append_to-cases :
      (append_to rt s v st ≡ grown)
      ⊎ ((length v ≤ cap st s) × (append_to rt s v st ≡ write_over s v st))
  append_to-cases = elim (Bool-cases (leb (length v) (cap st s))) [
    | inl h ↦ inr (leb→le _ _ h, in_place h)
    | inr h ↦ inl (moved h)
  ]

update_same : (f : ℕ → Bytes) (p : ℕ) (v : Bytes) → update f p v p ≡ v
update_same f p v = ground arith

bytes_of-write_over :
    (s : Slice) (v : Bytes) (st : Store)
    → length v ≤ cap st s
    → bytes_of (write_over s v st).store (write_over s v st).slice ≡ v
unfolding cap write_over bytes_of
bytes_of-write_over nil [] st h = refl
bytes_of-write_over nil (x ∷ v) st h = absurd (omega (arith, h))
bytes_of-write_over (slice r n) v st h =
    ap (take (length v)) (update_same st.arrays r _)
    ∙ (ap (take (length v)) (overwrite-append [] (st.arrays r) v h)
        ∙ take-append v (drop (length v) (st.arrays r)))

bytes_of-grown :
    (rt : Runtime) (s : Slice) (v : Bytes) (st : Store)
    → bytes_of (grown rt s v st).store (grown rt s v st).slice ≡ v
unfolding grown bytes_of
bytes_of-grown rt s v st = ap (take (length v)) (update_same st.arrays st.next _) ∙ take-append v _

-- The slice holds what was appended, whether its array had the room or a new one was made.
pub bytes_of-append_to :
    (rt : Runtime) (s : Slice) (v : Bytes) (st : Store)
    → bytes_of (append_to rt s v st).store (append_to rt s v st).slice ≡ v
bytes_of-append_to rt s v st = elim (append_to-cases rt s v st) [
  | inl e ↦ subst (λ a. bytes_of a.store a.slice ≡ v) (sym e) (bytes_of-grown rt s v st)
  | inr (h, e) ↦ subst (λ a. bytes_of a.store a.slice ≡ v) (sym e) (bytes_of-write_over s v st h)
]

-- What a write may change of the arrays, and which array its slice is of then.
pub record Written (s : Slice) (st : Store) (a : Appended) : Type 0 where
  pub keeps : (r : ℕ) → r < st.next → owns s r ≡ false → a.store.arrays r ≡ st.arrays r
  pub takes :
      (r : ℕ)
      → owns a.slice r ≡ true
      → (owns s r ≡ true) ⊎ (r ≡ st.next) × (a.store.next ≡ st.next + 1)
  pub grows : st.next ≤ a.store.next

Written-write_over : (s : Slice) (v : Bytes) (st : Store) → Written s st (write_over s v st)
unfolding write_over
Written-write_over nil v st = record {
  keeps = λ r h o. refl;
  takes = λ r o. inl o;
  grows = omega arith;
}
Written-write_over (slice a n) v st = record {
  keeps = λ r h o. ground (arith, o);
  takes = λ r o. inl o;
  grows = omega arith;
}

Written-grown : (rt : Runtime) (s : Slice) (v : Bytes) (st : Store) → Written s st (grown rt s v st)
unfolding grown
Written-grown rt s v st = record {
  keeps = λ r h o. ground (arith, h);
  takes = λ r o. inr (ground (arith, o), refl);
  grows = omega arith;
}

pub Written-append_to :
    (rt : Runtime) (s : Slice) (v : Bytes) (st : Store) → Written s st (append_to rt s v st)
Written-append_to rt s v st = elim (append_to-cases rt s v st) [
  | inl e ↦ subst (Written s st) (sym e) (Written-grown rt s v st)
  | inr (h, e) ↦ subst (Written s st) (sym e) (Written-write_over s v st)
]
