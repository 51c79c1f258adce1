-- ===== src/Client/Settled.antt =====
-- Where a caller has returned, its context is out of the table, if it has no callback.
use sofa_bolt_go.Base.{
  ℕ, ◌≡◌, refl, sym, ap, subst, ◌∙◌, ◌⊎◌, Bool, true, false, Option, some, List, [], ◌∷◌, ◌==◌,
  arith, Bool-cases, inl, inr,
}
use sofa_bolt_go.Response.{Response}
use sofa_bolt_go.Client.Table.{remove, update}
use sofa_bolt_go.Client.{
  InvokeContext, Phase, starting, checking, numbering, adding, writing, removing, waiting, returned,
  abort, abort_all, invoke_context, assign_response,
}
use sofa_bolt_go.Client.Invariant.{NotTarget, Entries, request_id}
use sofa_bolt_go.Client.Entries.{same_id, NotTarget-remove}

differ : (n r : ℕ) → (n == r) ≡ false → n ≡ r → ⊥
differ n r h e = ground arith

List-cases : {A : Type 0} (xs : List A) → (xs ≡ []) ⊎ ((x : A) × (ys : List A) × (xs ≡ x ∷ ys))
List-cases [] = inl refl
List-cases (x ∷ ys) = inr (x, ys, refl)

module _ {E : Type 0} where
  abbrev pub is_returned : Phase E → Bool
  is_returned starting = false
  is_returned checking = false
  is_returned numbering = false
  is_returned (adding rid dst) = false
  is_returned (writing rid dst) = false
  is_returned (removing rid result) = false
  is_returned (waiting rid) = false
  is_returned (returned result) = true

  -- The number that a caller still keeps is its request's.
  abbrev pub Keyed : ℕ → Phase E → Type 0
  Keyed id starting = Unit
  Keyed id checking = Unit
  Keyed id numbering = Unit
  Keyed id (adding rid dst) = Unit
  Keyed id (writing rid dst) = id ≡ rid
  Keyed id (removing rid result) = id ≡ rid
  Keyed id (waiting rid) = id ≡ rid
  Keyed id (returned result) = Unit

  pub record IsSettled (f : ℕ → InvokeContext E) (xs : List (ℕ × ℕ)) : Type 0 where
    pub keyed : (i : ℕ) → Keyed (request_id (f i)) (f i).phase
    pub gone : (i : ℕ) → (f i).callback ≡ false → is_returned (f i).phase ≡ true → NotTarget i xs

  pub IsSettled-update :
      (f : ℕ → InvokeContext E) (xs ys : List (ℕ × ℕ)) (i : ℕ) (c : InvokeContext E)
      → IsSettled f xs
      → Keyed (request_id c) c.phase
      → (c.callback ≡ false → is_returned c.phase ≡ true → NotTarget i ys)
      → ((j : ℕ) → (i == j) ≡ false → NotTarget j xs → NotTarget j ys)
      → IsSettled (update f i c) ys
  IsSettled-update f xs ys i c h k g o = record {
    keyed =
        λ j. elim (Bool-cases (i == j)) [ inl same ↦ rw same k | inr other ↦ rw other (h.keyed j) ];
    gone = λ j b p. elim (Bool-cases (i == j)) [
      | inl same ↦ subst (λ n. NotTarget n ys) (same_id i j same) (g (rw same at b) (rw same at p))
      | inr other ↦ o j other (h.gone j (rw other at b) (rw other at p))
    ];
  }

  pub IsSettled-remove :
      (f : ℕ → InvokeContext E) (r : ℕ) (xs : List (ℕ × ℕ))
      → IsSettled f xs
      → IsSettled f (remove r xs)
  IsSettled-remove f r xs h = record {
    keyed = h.keyed;
    gone = λ i b p. NotTarget-remove r i xs (h.gone i b p);
  }

  apart :
      (f : ℕ → InvokeContext E) (n r i j : ℕ)
      → (n == r) ≡ false
      → request_id (f j) ≡ n
      → request_id (f i) ≡ r
      → (i == j) ≡ false
  apart f n r i j other p k = elim (Bool-cases (i == j)) [
    | inr away ↦ away
    | inl same ↦
        let e : n ≡ r = sym p ∙ (ap (λ m. request_id (f m)) (sym (same_id i j same)) ∙ k) in
        absurd (differ n r other e)
  ]

  -- Entries of a context have the key of its request, and so are gone with it.
  pub NotTarget-remove_own :
      (f : ℕ → InvokeContext E) (r i : ℕ) (xs : List (ℕ × ℕ))
      → Entries f xs
      → request_id (f i) ≡ r
      → NotTarget i (remove r xs)
  NotTarget-remove_own f r i [] e k = tt
  NotTarget-remove_own f r i ((n, j) ∷ xs) (p, b, e) k = elim (Bool-cases (n == r)) [
    | inl same ↦ rw same (NotTarget-remove_own f r i xs e k)
    | inr other ↦ rw other (apart f n r i j other p.key k, NotTarget-remove_own f r i xs e k)
  ]

  -- A context whose channel is not empty is in no entry.
  pub NotTarget-loud :
      (f : ℕ → InvokeContext E) (i : ℕ) (xs : List (ℕ × ℕ)) (v : Option E) (vs : List (Option E))
      → Entries f xs
      → (f i).err_ch ≡ v ∷ vs
      → NotTarget i xs
  NotTarget-loud f i [] v vs e q = tt
  NotTarget-loud f i ((n, j) ∷ xs) v vs (p, b, e) q = (
    elim (Bool-cases (i == j)) [
      | inr other ↦ other
      | inl same ↦ absurd (cc (same_id i j same, p.silent, q))
    ],
    NotTarget-loud f i xs v vs e q,
  )

  -- What the read loop leaves of a context.
  pub record Same (c d : InvokeContext E) : Type 0 where
    pub phase : d.phase ≡ c.phase
    pub req : d.req ≡ c.req
    pub callback : d.callback ≡ c.callback

  Same-abort : (err : E) (c : InvokeContext E) → Same c (abort err c)
  unfolding abort
  Same-abort err c = elim (Bool-cases c.callback) [
    | inl on ↦ rw on (record { phase = refl; req = refl; callback = refl })
    | inr off ↦ elim (List-cases c.err_ch) [
      | inl quiet ↦ rw (off, quiet) (record { phase = refl; req = refl; callback = refl })
      | inr (v, vs, loud) ↦ rw (off, loud) (record { phase = refl; req = refl; callback = refl })
    ]
  ]

  Same-some : (c d c' : InvokeContext E) → some d ≡ some c' → Same c d → Same c c'
  Same-some c d c' e s = let q : d ≡ c' = cc e in subst (Same c) q s

  pub Same-invoke_context :
      (err : Option E) (res : Response) (c c' : InvokeContext E)
      → invoke_context err res c ≡ some c'
      → Same c c'
  unfolding invoke_context assign_response
  Same-invoke_context err res c c' e = elim (Bool-cases c.callback) [
    | inl on ↦
        Same-some c _ c' (rw on at e) (record { phase = refl; req = refl; callback = sym on })
    | inr off ↦ elim (List-cases c.err_ch) [
      | inl quiet ↦
          Same-some c _ c' (rw (off, quiet) at e)
            (record { phase = refl; req = refl; callback = sym off })
      | inr (v, vs, loud) ↦ absurd (cc (rw (off, loud) at e))
    ]
  ]

  Same-trans : (c d e : InvokeContext E) → Same c d → Same d e → Same c e
  Same-trans c d e s u = record {
    phase = u.phase ∙ s.phase;
    req = u.req ∙ s.req;
    callback = u.callback ∙ s.callback;
  }

  Same-update :
      (f : ℕ → InvokeContext E) (i j : ℕ) (c : InvokeContext E)
      → Same (f i) c
      → Same (f j) (update f i c j)
  Same-update f i j c s = elim (Bool-cases (i == j)) [
    | inl same ↦ rw (same, sym (same_id i j same)) s
    | inr other ↦ rw other (record { phase = refl; req = refl; callback = refl })
  ]

  pub Same-abort_all :
      (err : E) (xs : List (ℕ × ℕ)) (f : ℕ → InvokeContext E) (j : ℕ)
      → Same (f j) (abort_all err xs f j)
  Same-abort_all err [] f j = record { phase = refl; req = refl; callback = refl }
  Same-abort_all err ((r, i) ∷ xs) f j =
      Same-trans (f j) (update f i (abort err (f i)) j) _
        (Same-update f i j (abort err (f i)) (Same-abort err (f i)))
        (Same-abort_all err xs (update f i (abort err (f i))) j)
