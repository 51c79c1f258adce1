-- ===== src/ClientConnBolt/Settled.antt =====
-- Where a caller has returned, no entry of the table leads to its context, if it has no callback.
use sofa_bolt_go.Base.{
  ℕ, ◌≤◌, ◌≡◌, refl, ap, subst, Bool, false, ◌&&◌, Option, none, some, List, [], ◌∷◌, ◌==◌, arith,
  Bool-cases, inl, inr, length, ltb, u32_max,
}
use sofa_bolt_go.Command.{type_bolt_request_one_way}
use sofa_bolt_go.Client.Table.{remove, insert, update}
use sofa_bolt_go.Client.Entries.{same_id}
use sofa_bolt_go.ClientConnBolt.{
  ClientConnBolt, Call, Stage, starting, numbering, adding, sending, removing, waiting, returned,
  number_call, after_send, receive, select,
}
use sofa_bolt_go.ClientConnBolt.Credit.{early, count, count-remove, own, IsFair}

-- The entries of `ys` that lead to `j` are among those of `xs`.
pub record IsLess (j : ℕ) (ys xs : List (ℕ × ℕ)) : Type 0 where
  all : count j ys ≤ count j xs
  others : (r : ℕ) → count j (remove r ys) ≤ count j (remove r xs)

count-remove-remove :
    (j r k : ℕ) (xs : List (ℕ × ℕ)) → count j (remove r (remove k xs)) ≤ count j (remove r xs)
count-remove-remove j r k [] = omega arith
count-remove-remove j r k ((n, i) ∷ xs) = ground (arith, count-remove-remove j r k xs)

pub remove-IsLess : (j k : ℕ) (xs : List (ℕ × ℕ)) → IsLess j (remove k xs) xs
remove-IsLess j k xs = record {
  all = count-remove j k xs;
  others = λ r. count-remove-remove j r k xs;
}

pub IsLess-refl : (j : ℕ) (xs : List (ℕ × ℕ)) → IsLess j xs xs
IsLess-refl j xs = record { all = omega arith; others = λ r. omega arith }

pub insert-IsLess : (i j k : ℕ) (xs : List (ℕ × ℕ)) → (i == j) ≡ false → IsLess j (insert k i xs) xs
insert-IsLess i j k xs other = record {
  all = rw other (omega (arith, count-remove j k xs));
  others = λ r. elim (Bool-cases (k == r)) [
    | inl same ↦ rw same (count-remove-remove j r k xs)
    | inr apart ↦ rw (apart, other) (omega (arith, count-remove-remove j r k xs))
  ];
}

pub own_entry :
    (i k : ℕ) (xs : List (ℕ × ℕ)) → count i xs ≡ 0 → count i (remove k (insert k i xs)) ≡ 0
own_entry i k xs z =
    rw (own k) (omega (arith, count-remove-remove i k k xs, count-remove i k xs, z))

module _ {E : Type 0} where
  -- The entries of a caller, by its stage, and by whether it has a callback.
  abbrev pub Settles : ℕ → Bool → Stage E → List (ℕ × ℕ) → Type 0
  Settles j b starting xs = Unit
  Settles j b numbering xs = Unit
  Settles j b (adding r) xs = Unit
  Settles j b (sending r) xs = count j (remove r xs) ≡ 0
  Settles j b (waiting r) xs = count j (remove r xs) ≡ 0
  Settles j b (removing r result) xs = count j (remove r xs) ≡ 0
  Settles j b (returned result) xs = b ≡ false → count j xs ≡ 0

  abbrev pub SettledCall : ℕ → Call E → List (ℕ × ℕ) → Type 0
  SettledCall j c xs = Settles j c.ctx.callback c.stage xs

  abbrev pub AreSettled : (ℕ → Call E) → List (ℕ × ℕ) → Type 0
  AreSettled f xs = (j : ℕ) → SettledCall j (f j) xs

  pub Settles-IsLess :
      (j : ℕ) (b : Bool) (s : Stage E) (ys xs : List (ℕ × ℕ))
      → IsLess j ys xs
      → Settles j b s xs
      → Settles j b s ys
  Settles-IsLess j b starting ys xs l h = tt
  Settles-IsLess j b numbering ys xs l h = tt
  Settles-IsLess j b (adding r) ys xs l h = tt
  Settles-IsLess j b (sending r) ys xs l h = omega (arith, l.others r, h)
  Settles-IsLess j b (waiting r) ys xs l h = omega (arith, l.others r, h)
  Settles-IsLess j b (removing r result) ys xs l h = omega (arith, l.others r, h)
  Settles-IsLess j b (returned result) ys xs l h = λ e. omega (arith, l.all, h e)

  pub Settles-nil : (j : ℕ) (b : Bool) (s : Stage E) → Settles j b s []
  Settles-nil j b starting = tt
  Settles-nil j b numbering = tt
  Settles-nil j b (adding r) = tt
  Settles-nil j b (sending r) = refl
  Settles-nil j b (waiting r) = refl
  Settles-nil j b (removing r result) = refl
  Settles-nil j b (returned result) = λ e. refl

  pub AreSettled-update :
      (f : ℕ → Call E) (xs ys : List (ℕ × ℕ)) (i : ℕ) (c : Call E)
      → AreSettled f xs
      → SettledCall i c ys
      → ((j : ℕ) → (i == j) ≡ false → IsLess j ys xs)
      → AreSettled (update f i c) ys
  AreSettled-update f xs ys i c h here there j = elim (Bool-cases (i == j)) [
    | inl same ↦ rw same (subst (λ k. SettledCall k c ys) (same_id i j same) here)
    | inr other ↦
        rw other (Settles-IsLess j (f j).ctx.callback (f j).stage ys xs (there j other) (h j))
  ]

  pub no_entry :
      (w : ClientConnBolt E) (i : ℕ)
      → IsFair w.calls w.requests w.dispatching
      → early (w.calls i).stage ≡ 1
      → count i w.requests ≡ 0
  no_entry w i h e = omega (arith, h.once i, e)

  pub number_call-SettledCall :
      (id i : ℕ) (c : Call E) (xs : List (ℕ × ℕ))
      → count i xs ≡ 0
      → SettledCall i (number_call id c) xs
  unfolding number_call
  number_call-SettledCall id i c xs z = elim (Bool-cases (ltb u32_max id)) [
    | inl over ↦ rw over (λ e. z)
    | inr fits ↦ rw fits tt
  ]

  pub after_send-Settles :
      (r i : ℕ) (e : Option E) (c : Call E) (xs : List (ℕ × ℕ))
      → count i (remove r xs) ≡ 0
      → Settles i c.ctx.callback (after_send r e c) xs
  unfolding after_send
  after_send-Settles r i (some e) c xs z = z
  after_send-Settles r i none c xs z =
      elim (Bool-cases (c.ctx.req.command.typ == type_bolt_request_one_way)) [
        | inl one_way ↦ rw one_way z
        | inr two_way ↦ elim (Bool-cases c.ctx.callback) [
          | inl on ↦ rw (two_way, on) (λ e. cc)
          | inr off ↦ rw (two_way, off) z
        ]
      ]

  -- What is on the channel was told, so that the entry is gone.
  told_gone :
      (w : ClientConnBolt E) (i : ℕ) (v : Option E) (vs : List (Option E))
      → IsFair w.calls w.requests w.dispatching
      → (w.calls i).ctx.err_ch ≡ v ∷ vs
      → count i w.requests ≡ 0
  told_gone w i v vs h e =
      omega (arith, h.once i, h.quiet i, ap (λ (us : List (Option E)). length us) e)

  receive-SettledCall :
      (vs : List (Option E)) (r i : ℕ) (w : ClientConnBolt E)
      → IsFair w.calls w.requests w.dispatching
      → (w.calls i).ctx.err_ch ≡ vs
      → SettledCall i (w.calls i) w.requests
      → SettledCall i (receive vs (w.calls i)) w.requests
  unfolding receive
  receive-SettledCall [] r i w h e s = s
  receive-SettledCall (some x ∷ vs) r i w h e s = λ b. told_gone w i (some x) vs h e
  receive-SettledCall (none ∷ vs) r i w h e s = λ b. told_gone w i none vs h e

  pub select-SettledCall :
      (r i : ℕ) (fired : Bool) (w : ClientConnBolt E)
      → IsFair w.calls w.requests w.dispatching
      → (w.calls i).stage ≡ waiting r
      → SettledCall i (w.calls i) w.requests
      → SettledCall i (select r fired (w.calls i)) w.requests
  unfolding select
  select-SettledCall r i fired w h e s = elim (Bool-cases ((w.calls i).ctx.has_timeout && fired)) [
    | inl out ↦ rw out (subst (λ t. Settles i (w.calls i).ctx.callback t w.requests) e s)
    | inr in_time ↦ rw in_time (receive-SettledCall (w.calls i).ctx.err_ch r i w h refl s)
  ]
