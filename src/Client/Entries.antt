-- ===== src/Client/Entries.antt =====
-- The table's operations and the writes to contexts keep what the table promises.
use sofa_bolt_go.Base.{
  ℕ, ◌≡◌, ◌∙◌, sym, ap, true, false, some, List, [], ◌∷◌, ◌==◌, if◌then◌else◌, arith, Bool-cases,
  inl, inr,
}
use sofa_bolt_go.Client.Table.{find, remove, update}
use sofa_bolt_go.Client.{InvokeContext}
use sofa_bolt_go.Client.Invariant.{IsPending, Absent, NotTarget, Entries, is_registered, request_id}

pub Absent-remove_same : (r : ℕ) (xs : List (ℕ × ℕ)) → Absent r (remove r xs)
Absent-remove_same r [] = tt
Absent-remove_same r ((k, i) ∷ xs) = elim (Bool-cases (k == r)) [
  | inl same ↦ rw same (Absent-remove_same r xs)
  | inr other ↦ rw other (other, Absent-remove_same r xs)
]

pub Absent-remove : (r j : ℕ) (xs : List (ℕ × ℕ)) → Absent j xs → Absent j (remove r xs)
Absent-remove r j [] a = tt
Absent-remove r j ((k, i) ∷ xs) (n, a) = elim (Bool-cases (k == r)) [
  | inl same ↦ rw same (Absent-remove r j xs a)
  | inr other ↦ rw other (n, Absent-remove r j xs a)
]

pub NotTarget-remove : (r j : ℕ) (xs : List (ℕ × ℕ)) → NotTarget j xs → NotTarget j (remove r xs)
NotTarget-remove r j [] a = tt
NotTarget-remove r j ((k, i) ∷ xs) (n, a) = elim (Bool-cases (k == r)) [
  | inl same ↦ rw same (NotTarget-remove r j xs a)
  | inr other ↦ rw other (n, NotTarget-remove r j xs a)
]

pub same_id : (i j : ℕ) → (i == j) ≡ true → i ≡ j
same_id i j h = ground arith

other_id : (i j : ℕ) → (i == j) ≡ false → i ≡ j → ⊥
other_id i j h e = ground arith

module _ {E : Type 0} where
  pub Entries-remove :
      (f : ℕ → InvokeContext E) (r : ℕ) (xs : List (ℕ × ℕ)) → Entries f xs → Entries f (remove r xs)
  Entries-remove f r [] e = tt
  Entries-remove f r ((k, i) ∷ xs) (p, a, e) = elim (Bool-cases (k == r)) [
    | inl same ↦ rw same (Entries-remove f r xs e)
    | inr other ↦ rw other (p, Absent-remove r k xs a, Entries-remove f r xs e)
  ]

  pub find-IsPending :
      (f : ℕ → InvokeContext E) (r i : ℕ) (xs : List (ℕ × ℕ))
      → Entries f xs
      → find r xs ≡ some i
      → IsPending (f i) r
  find-IsPending f r i [] e h = absurd (cc h)
  find-IsPending f r i ((k, j) ∷ xs) (p, a, e) h = elim (Bool-cases (k == r)) [
    | inl same ↦
        let found : some j ≡ some i = sym (ap (λ b. if b then some j else find r xs) same) ∙ h in
        let here : i ≡ j = cc found in rw (here, sym (same_id k r same)) p
    | inr other ↦
        find-IsPending f r i xs e (sym (ap (λ b. if b then some j else find r xs) other) ∙ h)
  ]

  -- A context whose request's id is no key is led to by no entry.
  pub Absent-NotTarget :
      (f : ℕ → InvokeContext E) (r i : ℕ) (xs : List (ℕ × ℕ))
      → Entries f xs
      → request_id (f i) ≡ r
      → Absent r xs
      → NotTarget i xs
  Absent-NotTarget f r i [] e k a = tt
  Absent-NotTarget f r i ((k', j) ∷ xs) (p, b, e) k (n, a) = (
    elim (Bool-cases (i == j)) [
      | inl same ↦
          absurd
            (other_id k' r n (sym p.key ∙ ap (λ x. request_id (f x)) (sym (same_id i j same)) ∙ k))
      | inr other ↦ other
    ],
    Absent-NotTarget f r i xs e k a,
  )

  -- So is a context that is not registered.
  pub unregistered-NotTarget :
      (f : ℕ → InvokeContext E) (i : ℕ) (xs : List (ℕ × ℕ))
      → Entries f xs
      → is_registered (f i).phase ≡ false
      → NotTarget i xs
  unregistered-NotTarget f i [] e u = tt
  unregistered-NotTarget f i ((k, j) ∷ xs) (p, b, e) u = (
    elim (Bool-cases (i == j)) [
      | inl same ↦ absurd (cc (same_id i j same, p.registered, u))
      | inr other ↦ other
    ],
    unregistered-NotTarget f i xs e u,
  )

  -- Writes elsewhere.
  pub Entries-update :
      (f : ℕ → InvokeContext E) (i : ℕ) (c : InvokeContext E) (xs : List (ℕ × ℕ))
      → NotTarget i xs
      → Entries f xs
      → Entries (update f i c) xs
  Entries-update f i c [] n e = tt
  Entries-update f i c ((k, j) ∷ xs) (m, n) (p, b, e) = (rw m p, b, Entries-update f i c xs n e)

  -- Writes that leave a pending context pending.
  pub Entries-update_pending :
      (f : ℕ → InvokeContext E) (i : ℕ) (c : InvokeContext E) (xs : List (ℕ × ℕ))
      → ((r : ℕ) → IsPending (f i) r → IsPending c r)
      → Entries f xs
      → Entries (update f i c) xs
  Entries-update_pending f i c [] h e = tt
  Entries-update_pending f i c ((k, j) ∷ xs) h (p, b, e) = (
    elim (Bool-cases (i == j)) [
      | inl same ↦ rw same (h k (rw (same_id i j same) p))
      | inr other ↦ rw other p
    ],
    b,
    Entries-update_pending f i c xs h e,
  )
