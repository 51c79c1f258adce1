-- ===== src/SimpleMap/Store/Sharing.antt =====
-- Slots no two slices of which share an array, and what writing one of them leaves of that.
use sofa_bolt_go.Base.{
  ℕ, ◌≤◌, ◌<◌, ◌≡◌, refl, ap, ◌⊎◌, inl, inr, Bool, true, false, ◌||◌, List, [], ◌∷◌, arith, ◌==◌,
  Bool-cases, take,
}
use sofa_bolt_go.SimpleMap.Store.{Slice, nil, slice, Store, Slot, bytes_of, kv_of, kvs_of}
use sofa_bolt_go.SimpleMap.Store.Writing.{owns}

abbrev pub slot_owns : Slot → ℕ → Bool
slot_owns s r = owns s.key r || owns s.value r

abbrev pub used : List Slot → ℕ → Bool
used [] r = false
used (s ∷ ss) r = slot_owns s r || used ss r

-- The slot's arrays are made, are two, and are none of the others.
pub record IsApart (n : ℕ) (s : Slot) (others : ℕ → Bool) : Type 0 where
  pub below : (r : ℕ) → slot_owns s r ≡ true → r < n
  pub apart : (r : ℕ) → slot_owns s r ≡ true → others r ≡ false
  pub two : (r : ℕ) → owns s.key r ≡ true → owns s.value r ≡ false

unfoldable pub IsUnshared : ℕ → List Slot → Type 0
IsUnshared n [] = Unit
IsUnshared n (s ∷ ss) = IsApart n s (used ss) × IsUnshared n ss

pub used-below : (n : ℕ) (ss : List Slot) (r : ℕ) → IsUnshared n ss → used ss r ≡ true → r < n
unfolding IsUnshared
used-below n [] r u h = cc
used-below n (s ∷ ss) r (a, u) h = elim (Bool-cases (slot_owns s r)) [
  | inl e ↦ a.below r e
  | inr e ↦ used-below n ss r u (ground (arith, h, e))
]

IsUnshared-le : (n n' : ℕ) (ss : List Slot) → n ≤ n' → IsUnshared n ss → IsUnshared n' ss
unfolding IsUnshared
IsUnshared-le n n' [] l u = tt
IsUnshared-le n n' (s ∷ ss) l (a, u) = (
  record { below = λ r o. omega (arith, a.below r o); apart = a.apart; two = a.two },
  IsUnshared-le n n' ss l u,
)

owner : (a : ℕ) → (a == a) ≡ true
owner a = ground arith

pub bytes_of-kept :
    (s : Slice) (st st' : Store)
    → ((r : ℕ) → owns s r ≡ true → st'.arrays r ≡ st.arrays r)
    → bytes_of st' s ≡ bytes_of st s
unfolding bytes_of
bytes_of-kept nil st st' h = refl
bytes_of-kept (slice a n) st st' h = ap (take n) (h a (owner a))

pub orb_left : (a b : Bool) → a ≡ true → (a || b) ≡ true
orb_left true b h = refl
orb_left false b h = cc

pub orb_right : (a b : Bool) → b ≡ true → (a || b) ≡ true
orb_right true b h = refl
orb_right false b h = h

pub kvs_of-kept :
    (ss : List Slot) (st st' : Store)
    → ((r : ℕ) → used ss r ≡ true → st'.arrays r ≡ st.arrays r)
    → kvs_of st' ss ≡ kvs_of st ss
unfolding kvs_of kv_of
kvs_of-kept [] st st' h = refl
kvs_of-kept (s ∷ ss) st st' h = rw (
  bytes_of-kept s.key st st' (λ r o. h r (orb_left _ _ (orb_left _ _ o))),
  bytes_of-kept s.value st st' (λ r o. h r (orb_left _ _ (orb_right (owns s.key r) _ o))),
  kvs_of-kept ss st st' (λ r o. h r (orb_right (slot_owns s r) _ o)),
)

-- What a write to the slot `s` may change, when it leaves `s'`.
pub record SlotWritten (s : Slot) (st : Store) (s' : Slot) (st' : Store) : Type 0 where
  pub keeps : (r : ℕ) → r < st.next → slot_owns s r ≡ false → st'.arrays r ≡ st.arrays r
  pub takes : (r : ℕ) → slot_owns s' r ≡ true → (slot_owns s r ≡ true) ⊎ (st.next ≤ r)
  pub below : (r : ℕ) → slot_owns s' r ≡ true → r < st'.next
  pub two : (r : ℕ) → owns s'.key r ≡ true → owns s'.value r ≡ false
  pub grows : st.next ≤ st'.next

module _ (s : Slot) (st : Store) (s' : Slot) (st' : Store) (ss : List Slot) where
  -- The slots behind a written one are apart from it and hold what they held.
  pub IsUnshared-written :
      SlotWritten s st s' st' → IsUnshared st.next (s ∷ ss) → IsUnshared st'.next (s' ∷ ss)
  unfolding IsUnshared
  IsUnshared-written w (a, u) = (
    record {
      below = w.below;
      apart = λ r o. elim (w.takes r o) [
        | inl own ↦ a.apart r own
        | inr new ↦ elim (Bool-cases (used ss r)) [
          | inl e ↦ absurd (omega (arith, used-below st.next ss r u e, new))
          | inr e ↦ e
        ]
      ];
      two = w.two;
    },
    IsUnshared-le st.next st'.next ss w.grows u,
  )

  pub used-kept :
      SlotWritten s st s' st'
      → IsUnshared st.next (s ∷ ss)
      → (r : ℕ) → used ss r ≡ true
      → st'.arrays r ≡ st.arrays r
  unfolding IsUnshared
  used-kept w (a, u) r o =
      w.keeps r (used-below st.next ss r u o)
        (elim (Bool-cases (slot_owns s r)) [ inl e ↦ cc (a.apart r e, o) | inr e ↦ e ])

pub orb_cases : (a b : Bool) → (a || b) ≡ true → (a ≡ true) ⊎ (b ≡ true)
orb_cases true b h = inl refl
orb_cases false b h = inr h

pub orb_false : (a b : Bool) → (a || b) ≡ false → (a ≡ false) × (b ≡ false)
orb_false true b h = cc
orb_false false b h = (refl, h)

pub disjoint : (a : Bool) → a ≡ true → a ≡ false → ⊥
disjoint a h e = cc
