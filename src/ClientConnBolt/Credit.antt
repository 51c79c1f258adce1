-- ===== src/ClientConnBolt/Credit.antt =====
-- What an invocation may still be told: it is about to enter the table, in it, out of it to be told,
-- or was told, and only one of these, once.
use sofa_bolt_go.Base.{
  ℕ, ◌+◌, ◌≤◌, ◌≡◌, refl, ap, subst, ◌∙◌, true, false, Option, none, some, List, [], ◌∷◌, ◌==◌,
  if◌then◌else◌, arith, Bool-cases, inl, inr, length,
}
use sofa_bolt_go.Response.{Response}
use sofa_bolt_go.Client.{InvokeContext, invoke_context, abort, assign_response}
use sofa_bolt_go.Client.Table.{find, remove, update}
use sofa_bolt_go.Client.Entries.{same_id}
use sofa_bolt_go.ClientConnBolt.{
  Call, Stage, starting, numbering, adding, sending, removing, waiting, returned, Dispatching, idle,
  delivering, abort_calls,
}

abbrev pub one_if : ℕ → ℕ → ℕ
one_if i j = if i == j then 1 else 0

-- The entries that lead to the caller `j`.
abbrev pub count : ℕ → List (ℕ × ℕ) → ℕ
count j [] = 0
count j ((r, i) ∷ xs) = one_if i j + count j xs

abbrev pub held : ℕ → Dispatching → ℕ
held j idle = 0
held j (delivering i res) = one_if i j

pub count-remove : (j r : ℕ) (xs : List (ℕ × ℕ)) → count j (remove r xs) ≤ count j xs
count-remove j r [] = omega arith
count-remove j r ((k, i) ∷ xs) = ground (arith, count-remove j r xs)

pub count-find :
    (r i : ℕ) (xs : List (ℕ × ℕ)) → find r xs ≡ some i → count i (remove r xs) + 1 ≤ count i xs
count-find r i [] h = cc
count-find r i ((k, j) ∷ xs) h = ground (arith, count-find r i xs, count-remove i r xs)

none_left {ℓ} : {A : Type ℓ} (xs : List A) → length xs ≤ 0 → xs ≡ []
none_left [] h = refl
none_left (x ∷ xs) h = absurd (omega (arith, h))

pub own : (k : ℕ) → (k == k) ≡ true
own k = ground arith

taken : (j i n : ℕ) → (j == i) ≡ true → one_if j i + n ≡ 0 → ⊥
taken j i n same z = ground arith

missed : (j i n : ℕ) → (j == i) ≡ false → 1 ≤ one_if j i + n → 1 ≤ n
missed j i n other p = ground (arith, other, p)

left_alone : (j i n : ℕ) → one_if j i + n ≡ 0 → n ≡ 0
left_alone j i n z = omega (arith, z)

module _ {E : Type 0} where
  abbrev pub early : Stage E → ℕ
  early starting = 1
  early numbering = 1
  early (adding r) = 1
  early (sending r) = 0
  early (waiting r) = 0
  early (removing r result) = 0
  early (returned result) = 0

  -- What a caller has used of its one credit.
  abbrev pub spent : Call E → ℕ
  spent c = early c.stage + length c.ctx.calls

  abbrev pub credit : ℕ → (ℕ → Call E) → List (ℕ × ℕ) → Dispatching → ℕ
  credit j f xs d = spent (f j) + count j xs + held j d

  -- What is on a channel was told.
  abbrev pub Quiet : Call E → Type 0
  Quiet c = length c.ctx.err_ch ≤ length c.ctx.calls

  pub record IsFair (f : ℕ → Call E) (xs : List (ℕ × ℕ)) (d : Dispatching) : Type 0 where
    pub once : (j : ℕ) → credit j f xs d ≤ 1
    pub quiet : (j : ℕ) → Quiet (f j)

  -- The caller `i` changes, and with it the table and the dispatch.
  pub IsFair-update :
      (f : ℕ → Call E) (xs ys : List (ℕ × ℕ)) (d e : Dispatching) (i : ℕ) (c : Call E)
      → IsFair f xs d
      → Quiet c
      → spent c + count i ys + held i e ≤ credit i f xs d
      → ((j : ℕ) → (i == j) ≡ false → count j ys + held j e ≤ count j xs + held j d)
      → IsFair (update f i c) ys e
  IsFair-update f xs ys d e i c h q here there = record {
    once = λ j. elim (Bool-cases (i == j)) [
      | inl same ↦
          subst (λ k. credit k (update f i c) ys e ≤ 1) (same_id i j same)
            (rw (own i) (omega (arith, here, h.once i)))
      | inr other ↦ rw other (omega (arith, there j other, h.once j))
    ];
    quiet =
        λ j. elim (Bool-cases (i == j)) [ inl same ↦ rw same q | inr other ↦ rw other (h.quiet j) ];
  }

  -- `Invoke` with nothing on the channel.
  pub invoke_context-tells :
      (err : Option E) (res : Response) (c : InvokeContext E)
      → c.err_ch ≡ []
      → (c' : InvokeContext E) × (invoke_context err res c ≡ some c')
        × (length c'.calls ≡ length c.calls + 1)
        × (length c'.err_ch ≤ length c'.calls)
  unfolding invoke_context assign_response
  invoke_context-tells err res c e = elim (Bool-cases c.callback) [
    | inl on ↦ rw on (_, refl, omega arith, rw e (omega arith))
    | inr off ↦ rw (off, e) (_, refl, omega arith, omega arith)
  ]

  abort-calls :
      (err : E) (c : InvokeContext E)
      → c.err_ch ≡ []
      → (abort err c).calls ≡ (some err, none) ∷ c.calls
  unfolding abort
  abort-calls err c e = elim (Bool-cases c.callback) [
    | inl on ↦ rw on refl
    | inr off ↦ rw (off, e) refl
  ]

  abort-quiet :
      (err : E) (c : InvokeContext E)
      → c.err_ch ≡ []
      → length (abort err c).err_ch ≤ length (abort err c).calls
  unfolding abort
  abort-quiet err c e = elim (Bool-cases c.callback) [
    | inl on ↦ rw (on, e) (omega arith)
    | inr off ↦ rw (off, e) (omega arith)
  ]

  -- The caller of an entry, and the one that is about to be told, were not told yet.
  pub untold :
      (f : ℕ → Call E) (xs : List (ℕ × ℕ)) (d : Dispatching) (i : ℕ)
      → IsFair f xs d
      → 1 ≤ count i xs + held i d
      → ((f i).ctx.calls ≡ []) × ((f i).ctx.err_ch ≡ [])
  untold f xs d i h p = (
    none_left (f i).ctx.calls (omega (arith, p, h.once i)),
    none_left (f i).ctx.err_ch (omega (arith, p, h.once i, h.quiet i)),
  )

  abbrev pub aborted : E → (ℕ → Call E) → ℕ → ℕ → Call E
  aborted err f i = update f i (record (f i) { ctx = abort err (f i).ctx })

  pub aborted-IsFair :
      (err : E) (f : ℕ → Call E) (r i : ℕ) (xs : List (ℕ × ℕ)) (d : Dispatching)
      → IsFair f ((r, i) ∷ xs) d
      → IsFair (aborted err f i) xs d
  aborted-IsFair err f r i xs d h =
      let silent = (untold f ((r, i) ∷ xs) d i h (rw (own i) (omega arith))).1 in
      IsFair-update f ((r, i) ∷ xs) xs d d i (record (f i) { ctx = abort err (f i).ctx }) h
        (abort-quiet err (f i).ctx silent)
        (rw (own i, abort-calls err (f i).ctx silent) (omega arith))
        (λ j other. rw other (omega arith))

  pub abort_calls-IsFair :
      (err : E) (xs : List (ℕ × ℕ)) (f : ℕ → Call E) (d : Dispatching)
      → IsFair f xs d
      → IsFair (abort_calls err xs f) [] d
  unfolding abort_calls
  abort_calls-IsFair err [] f d h = h
  abort_calls-IsFair err ((r, i) ∷ xs) f d h =
      abort_calls-IsFair err xs (aborted err f i) d (aborted-IsFair err f r i xs d h)

  away :
      (err : E) (xs : List (ℕ × ℕ)) (f : ℕ → Call E) (i : ℕ)
      → count i xs ≡ 0
      → abort_calls err xs f i ≡ f i
  unfolding abort_calls
  away err [] f i z = refl
  away err ((r, j) ∷ xs) f i z = elim (Bool-cases (j == i)) [
    | inl same ↦ absurd (taken j i (count i xs) same z)
    | inr other ↦ away err xs (aborted err f j) i (left_alone j i (count i xs) z) ∙ rw other refl
  ]

  hit :
      (f : ℕ → Call E) (j i : ℕ) (err : E)
      → (j == i) ≡ true
      → j ≡ i
      → aborted err f j i ≡ record (f i) { ctx = abort err (f i).ctx }
  hit f j i err same here = rw (same, here) refl

  last :
      (f : ℕ → Call E) (r j i : ℕ) (xs : List (ℕ × ℕ)) (d : Dispatching)
      → IsFair f ((r, j) ∷ xs) d
      → (j == i) ≡ true
      → count i xs ≡ 0
  last f r j i xs d h same =
      let one : one_if j i ≡ 1 = ap (λ b. if b then 1 else 0) same in omega (arith, h.once i, one)

  -- The caller of an entry is told the error, and nothing else ever.
  pub abort_calls-tells :
      (err : E) (xs : List (ℕ × ℕ)) (f : ℕ → Call E) (d : Dispatching) (i : ℕ)
      → IsFair f xs d
      → 1 ≤ count i xs
      → (abort_calls err xs f i).ctx.calls ≡ (some err, none) ∷ []
  unfolding abort_calls
  abort_calls-tells err [] f d i h p = absurd (omega (arith, p))
  abort_calls-tells err ((r, j) ∷ xs) f d i h p = elim (Bool-cases (j == i)) [
    | inl same ↦
        let here : j ≡ i = same_id j i same in
        let (quiet, silent) = untold f ((r, j) ∷ xs) d i h (omega (arith, p)) in
        ap (λ c. c.ctx.calls) (away err xs (aborted err f j) i (last f r j i xs d h same))
        ∙ (ap (λ c. c.ctx.calls) (hit f j i err same here)
            ∙ (abort-calls err (f i).ctx silent ∙ ap (λ cs. (some err, none) ∷ cs) quiet))
    | inr other ↦
        abort_calls-tells err xs (aborted err f j) d i (aborted-IsFair err f r j xs d h)
          (missed j i (count i xs) other p)
  ]
