-- ===== src/SimpleMap/Store/SlotWriting.antt =====
-- What writing the value of a slot, or both of its slices, changes of the arrays.
use sofa_bolt_go.Base.{
  ℕ, ◌<◌, ◌≡◌, refl, ◌∙◌, inl, inr, Bool, true, false, arith, Bytes, Bool-cases,
}
use sofa_bolt_go.SimpleMap.Store.{Store, Slot, Runtime, append_to, write_slot, kv_of}
use sofa_bolt_go.SimpleMap.Store.Writing.{owns, bytes_of-append_to, Written-append_to}
use sofa_bolt_go.SimpleMap.Store.Sharing.{
  IsApart, SlotWritten, bytes_of-kept, orb_left, orb_right, orb_cases, orb_false, disjoint,
}

module _ (rt : Runtime) (v : Bytes) (s : Slot) (st : Store) (others : ℕ → Bool) where
  -- The value alone is written.
  pub SlotWritten-value :
      IsApart st.next s others
      → SlotWritten s st
          (record s { value = (append_to rt s.value v st).slice })
          (append_to rt s.value v st).store
  SlotWritten-value a =
      let w = Written-append_to rt s.value v st in
      record {
        keeps = λ r h o. w.keeps r h ((orb_false (owns s.key r) _ o).1);
        takes = λ r o. elim (orb_cases (owns s.key r) _ o) [
          | inl e ↦ inl (orb_left _ _ e)
          | inr e ↦ elim (w.takes r e) [
            | inl own ↦ inl (orb_right (owns s.key r) _ own)
            | inr (new, nx) ↦ inr (omega (arith, new))
          ]
        ];
        below = λ r o. elim (orb_cases (owns s.key r) _ o) [
          | inl e ↦ omega (arith, a.below r (orb_left _ _ e), w.grows)
          | inr e ↦ elim (w.takes r e) [
            | inl own ↦ omega (arith, a.below r (orb_right (owns s.key r) _ own), w.grows)
            | inr (new, nx) ↦ omega (arith, new, nx)
          ]
        ];
        two = λ r o. elim (Bool-cases (owns (append_to rt s.value v st).slice r)) [
          | inr e ↦ e
          | inl e ↦ elim (w.takes r e) [
            | inl own ↦ absurd (disjoint _ own (a.two r o))
            | inr (new, nx) ↦ absurd (omega (arith, new, a.below r (orb_left _ _ o)))
          ]
        ];
        grows = w.grows;
      }

module _ (rt : Runtime) (k v : Bytes) (s : Slot) (st : Store) (others : ℕ → Bool) where
  -- The slice that the value gets has an array of its own.
  values_apart :
      IsApart st.next s others
      → (r : ℕ) → owns (append_to rt s.key k st).slice r ≡ true
      → owns s.value r ≡ false
  values_apart a r o =
      let w = Written-append_to rt s.key k st in
      elim (Bool-cases (owns s.value r)) [
        | inr e ↦ e
        | inl e ↦ elim (w.takes r o) [
          | inl own ↦ absurd (disjoint _ e (a.two r own))
          | inr (new, nx) ↦ absurd (omega (arith, new, a.below r (orb_right (owns s.key r) _ e)))
        ]
      ]

  key_below :
      IsApart st.next s others
      → (r : ℕ) → owns (append_to rt s.key k st).slice r ≡ true
      → r < (append_to rt s.key k st).store.next
  key_below a r o =
      let w = Written-append_to rt s.key k st in
      elim (w.takes r o) [
        | inl own ↦ omega (arith, a.below r (orb_left _ _ own), w.grows)
        | inr (new, nx) ↦ omega (arith, new, nx)
      ]

  pub SlotWritten-slot :
      IsApart st.next s others
      → SlotWritten s st (write_slot rt k v s st).0 (write_slot rt k v s st).1
  unfolding write_slot
  SlotWritten-slot a =
      let st' = (append_to rt s.key k st).store in
      let w = Written-append_to rt s.key k st in
      let x = Written-append_to rt s.value v st' in
      record {
        keeps = λ r h o.
            x.keeps r (omega (arith, h, w.grows)) ((orb_false (owns s.key r) _ o).1)
            ∙ w.keeps r h ((orb_false (owns s.key r) _ o).0);
        takes = λ r o. elim (orb_cases (owns (append_to rt s.key k st).slice r) _ o) [
          | inl e ↦ elim (w.takes r e) [
            | inl own ↦ inl (orb_left _ _ own)
            | inr (new, nx) ↦ inr (omega (arith, new))
          ]
          | inr e ↦ elim (x.takes r e) [
            | inl own ↦ inl (orb_right (owns s.key r) _ own)
            | inr (new, nx) ↦ inr (omega (arith, new, w.grows))
          ]
        ];
        below = λ r o. elim (orb_cases (owns (append_to rt s.key k st).slice r) _ o) [
          | inl e ↦ omega (arith, key_below a r e, x.grows)
          | inr e ↦ elim (x.takes r e) [
            | inl own ↦ omega (arith, a.below r (orb_right (owns s.key r) _ own), w.grows, x.grows)
            | inr (new, nx) ↦ omega (arith, new, nx)
          ]
        ];
        two = λ r o. elim (Bool-cases (owns (append_to rt s.value v st').slice r)) [
          | inr e ↦ e
          | inl e ↦ elim (x.takes r e) [
            | inl own ↦ absurd (disjoint _ own (values_apart a r o))
            | inr (new, nx) ↦ absurd (omega (arith, new, key_below a r o))
          ]
        ];
        grows = omega (arith, w.grows, x.grows);
      }

  pub kv_of-slot :
      IsApart st.next s others
      → kv_of (write_slot rt k v s st).1 (write_slot rt k v s st).0 ≡ record { key = k; value = v }
  unfolding write_slot kv_of
  kv_of-slot a =
      let st' = (append_to rt s.key k st).store in
      let x = Written-append_to rt s.value v st' in
      rw
        (
          bytes_of-append_to rt s.value v st',
          bytes_of-kept (append_to rt s.key k st).slice st' (append_to rt s.value v st').store
              (λ r o. x.keeps r (key_below a r o) (values_apart a r o)),
          bytes_of-append_to rt s.key k st,
        )
        refl
