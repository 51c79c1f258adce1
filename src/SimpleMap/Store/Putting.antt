-- ===== src/SimpleMap/Store/Putting.antt =====
-- What a write to some of the slots leaves of the others.
use sofa_bolt_go.Base.{
  ℕ, zero, suc, ◌≤◌, ◌<◌, ◌≡◌, refl, ap, subst, ◌∙◌, ◌⊎◌, inl, inr, Bool, true, false, ◌||◌, List,
  ◌∷◌, ◌++◌, arith, Bool-cases, replicate,
}
use sofa_bolt_go.SimpleMap.Store.{Store, Slot, Put, fresh_slot, put_behind, kv_of}
use sofa_bolt_go.SimpleMap.Store.Writing.{owns}
use sofa_bolt_go.SimpleMap.Store.Sharing.{
  slot_owns, used, IsApart, IsUnshared, SlotWritten, IsUnshared-written, bytes_of-kept, orb_left,
  orb_right, orb_cases, orb_false, disjoint,
}

pub fresh-IsApart : (n : ℕ) (others : ℕ → Bool) → IsApart n fresh_slot others
fresh-IsApart n others = record { below = λ r o. cc; apart = λ r o. cc; two = λ r o. cc }

pub IsUnshared-fresh : (n m : ℕ) → IsUnshared n (replicate m fresh_slot)
unfolding IsUnshared
IsUnshared-fresh n zero = tt
IsUnshared-fresh n (suc m) = (fresh-IsApart n _, IsUnshared-fresh n m)

pub used-fresh : (m r : ℕ) → used (replicate m fresh_slot) r ≡ false
used-fresh zero r = refl
used-fresh (suc m) r = used-fresh m r

both_false : (a b : Bool) → a ≡ false → b ≡ false → (a || b) ≡ false
both_false true b h e = cc
both_false false b h e = e

-- What is so behind a write to the slots `xs`.
pub record PutDone (xs : List Slot) (st : Store) (p : Put) : Type 0 where
  pub unshared : IsUnshared p.store.next (p.kvs ++ p.behind)
  pub keeps : (r : ℕ) → r < st.next → used xs r ≡ false → p.store.arrays r ≡ st.arrays r
  pub takes : (r : ℕ) → used (p.kvs ++ p.behind) r ≡ true → (used xs r ≡ true) ⊎ (st.next ≤ r)
  pub grows : st.next ≤ p.store.next

module _ (s : Slot) (st : Store) where
  -- The head alone is written, whether it is one of those in use.
  pub PutDone-written :
      (xs kvs behind : List Slot) (s' : Slot) (st' : Store)
      → (s' ∷ xs ≡ kvs ++ behind)
      → SlotWritten s st s' st'
      → IsUnshared st.next (s ∷ xs)
      → PutDone (s ∷ xs) st (record { kvs = kvs; behind = behind; store = st' })
  PutDone-written xs kvs behind s' st' e w u = record {
    unshared = subst (IsUnshared st'.next) e (IsUnshared-written s st s' st' xs w u);
    keeps = λ r h o. w.keeps r h ((orb_false _ _ o).0);
    takes = λ r o. elim (orb_cases (slot_owns s' r) _ (ap (λ ys. used ys r) e ∙ o)) [
      | inl f ↦ elim (w.takes r f) [ inl own ↦ inl (orb_left _ _ own) | inr new ↦ inr new ]
      | inr f ↦ inl (orb_right (slot_owns s r) _ f)
    ];
    grows = w.grows;
  }

  -- A slot in front of those written stays what it is.
  pub kv_of-behind :
      (xs : List Slot) (p : Put)
      → IsApart st.next s (used xs)
      → PutDone xs st p
      → kv_of p.store s ≡ kv_of st s
  unfolding kv_of
  kv_of-behind xs p a d =
      let same = (λ (r : ℕ) (o : slot_owns s r ≡ true). d.keeps r (a.below r o) (a.apart r o)) in
      rw
        (
          bytes_of-kept s.key st p.store (λ r o. same r (orb_left _ _ o)),
          bytes_of-kept s.value st p.store (λ r o. same r (orb_right (owns s.key r) _ o)),
        )
        refl

  pub PutDone-behind :
      (xs : List Slot) (p : Put)
      → IsApart st.next s (used xs)
      → PutDone xs st p
      → PutDone (s ∷ xs) st (put_behind s p)
  unfolding IsUnshared
  PutDone-behind xs p a d = record {
    unshared = (
      record {
        below = λ r o. omega (arith, a.below r o, d.grows);
        apart = λ r o. elim (Bool-cases (used (p.kvs ++ p.behind) r)) [
          | inr f ↦ f
          | inl f ↦ elim (d.takes r f) [
            | inl old ↦ absurd (disjoint _ old (a.apart r o))
            | inr new ↦ absurd (omega (arith, a.below r o, new))
          ]
        ];
        two = a.two;
      },
      d.unshared,
    );
    keeps = λ r h o. d.keeps r h ((orb_false (slot_owns s r) _ o).1);
    takes = λ r o. elim (orb_cases (slot_owns s r) _ o) [
      | inl f ↦ inl (orb_left _ _ f)
      | inr f ↦ elim (d.takes r f) [
        | inl old ↦ inl (orb_right (slot_owns s r) _ old)
        | inr new ↦ inr new
      ]
    ];
    grows = d.grows;
  }

  -- A write to the slot, and then one to those behind it.
  pub PutDone-after :
      (xs : List Slot) (p : Put) (s' : Slot) (st' : Store)
      → SlotWritten s st s' st'
      → PutDone (s' ∷ xs) st' p
      → PutDone (s ∷ xs) st p
  PutDone-after xs p s' st' w d = record {
    unshared = d.unshared;
    keeps = λ r h o. elim (Bool-cases (slot_owns s' r)) [
      | inl f ↦ elim (w.takes r f) [
        | inl own ↦ absurd (disjoint _ own ((orb_false _ _ o).0))
        | inr new ↦ absurd (omega (arith, h, new))
      ]
      | inr f ↦
          d.keeps r (omega (arith, h, w.grows))
            (both_false _ _ f ((orb_false (slot_owns s r) _ o).1))
          ∙ w.keeps r h ((orb_false _ _ o).0)
    ];
    takes = λ r o. elim (d.takes r o) [
      | inr new ↦ inr (omega (arith, new, w.grows))
      | inl f ↦ elim (orb_cases (slot_owns s' r) _ f) [
        | inl g ↦ elim (w.takes r g) [ inl own ↦ inl (orb_left _ _ own) | inr new ↦ inr new ]
        | inr g ↦ inl (orb_right (slot_owns s r) _ g)
      ]
    ];
    grows = omega (arith, w.grows, d.grows);
  }
