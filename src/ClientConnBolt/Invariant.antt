-- ===== src/ClientConnBolt/Invariant.antt =====
-- What holds of a client between two steps.
use sofa_bolt_go.Base.{
  ℕ, ◌≤◌, ◌≡◌, refl, sym, ap, ◌∙◌, subst, Option, none, some, List, [], ◌∷◌, ◌==◌, if◌then◌else◌,
  Bool-cases, inl, inr, u32_max,
}
use sofa_bolt_go.Client.Table.{find, remove, update}
use sofa_bolt_go.Client.Entries.{same_id}
use sofa_bolt_go.ClientConnBolt.{
  ClientConnBolt, Call, Stage, starting, numbering, adding, sending, removing, waiting, returned,
  Returned, sent, answered, failed, Dispatching, idle, delivering,
}

-- The response that a nil of the channel announces is for the request.
abbrev pub Tells : {E : Type 0} → List (Option E) → Type 0 → Type 0
Tells [] A = Unit
Tells (none ∷ vs) A = A × Tells vs A
Tells (some e ∷ vs) A = Tells vs A

-- The number of a caller that was answered with the response id `r`.
abbrev pub Answers : {E : Type 0} → Returned E → Option ℕ → ℕ → Type 0
Answers sent n r = Unit
Answers answered n r = n ≡ some r
Answers (failed e) n r = Unit

-- The number at each stage.
abbrev pub Staged : {E : Type 0} → Stage E → Option ℕ → ℕ → Type 0
Staged starting n r = n ≡ none
Staged numbering n r = n ≡ none
Staged (adding k) n r = n ≡ some k
Staged (sending k) n r = Unit
Staged (waiting k) n r = Unit
Staged (removing k result) n r = Answers result n r
Staged (returned result) n r = Answers result n r

-- A caller on its own, where `total` numbers were drawn.
pub record IsSound {E : Type 0} (total : ℕ) (c : Call E) : Type 0 where
  pub bounded : (r : ℕ) → c.number ≡ some r → (r ≤ total) × (r ≤ u32_max)
  pub staged : Staged c.stage c.number c.ctx.res.command.rid
  pub told : Tells c.ctx.err_ch (c.number ≡ some c.ctx.ires.command.rid)

-- The entries of the table lead to the callers of these numbers.
abbrev pub Entries : (ℕ → Option ℕ) → List (ℕ × ℕ) → Type 0
Entries num [] = Unit
Entries num ((r, i) ∷ xs) = (num i ≡ some r) × Entries num xs

abbrev pub Delivers : (ℕ → Option ℕ) → Dispatching → Type 0
Delivers num idle = Unit
Delivers num (delivering i res) = num i ≡ some res.command.rid

abbrev pub IsDistinct : (ℕ → Option ℕ) → Type 0
IsDistinct num = (i j r : ℕ) → num i ≡ some r → num j ≡ some r → i ≡ j

abbrev pub numbers : {E : Type 0} → (ℕ → Call E) → ℕ → Option ℕ
numbers calls i = (calls i).number

pub record IsConsistent {E : Type 0} (w : ClientConnBolt E) : Type 0 where
  pub sound : (i : ℕ) → IsSound w.increments (w.calls i)
  pub distinct : IsDistinct (numbers w.calls)
  pub entries : Entries (numbers w.calls) w.requests
  pub delivers : Delivers (numbers w.calls) w.dispatching

-- A change that only adds numbers.
abbrev pub Extends : (ℕ → Option ℕ) → (ℕ → Option ℕ) → Type 0
Extends num num' = (i r : ℕ) → num i ≡ some r → num' i ≡ some r

pub Entries-Extends :
    (num num' : ℕ → Option ℕ) (xs : List (ℕ × ℕ))
    → Extends num num'
    → Entries num xs
    → Entries num' xs
Entries-Extends num num' [] ext e = tt
Entries-Extends num num' ((r, i) ∷ xs) ext (p, e) = (ext i r p, Entries-Extends num num' xs ext e)

pub Delivers-Extends :
    (num num' : ℕ → Option ℕ) (d : Dispatching)
    → Extends num num'
    → Delivers num d
    → Delivers num' d
Delivers-Extends num num' idle ext p = tt
Delivers-Extends num num' (delivering i res) ext p = ext i res.command.rid p

pub Entries-remove :
    (num : ℕ → Option ℕ) (r : ℕ) (xs : List (ℕ × ℕ)) → Entries num xs → Entries num (remove r xs)
Entries-remove num r [] e = tt
Entries-remove num r ((k, i) ∷ xs) (p, e) = elim (Bool-cases (k == r)) [
  | inl same ↦ rw same (Entries-remove num r xs e)
  | inr other ↦ rw other (p, Entries-remove num r xs e)
]

pub find-Entries :
    (num : ℕ → Option ℕ) (r i : ℕ) (xs : List (ℕ × ℕ))
    → Entries num xs
    → find r xs ≡ some i
    → num i ≡ some r
find-Entries num r i [] e h = absurd (cc h)
find-Entries num r i ((k, j) ∷ xs) (p, e) h = elim (Bool-cases (k == r)) [
  | inl same ↦
      let found : some j ≡ some i = sym (ap (λ b. if b then some j else find r xs) same) ∙ h in
      let here : i ≡ j = cc found in rw (here, sym (same_id k r same)) p
  | inr other ↦
      find-Entries num r i xs e (sym (ap (λ b. if b then some j else find r xs) other) ∙ h)
]

module _ {E : Type 0} where
  -- What holds of every caller holds after a change of one for which it does.
  pub update_all :
      (P : ℕ → Call E → Type 0) (f : ℕ → Call E) (i : ℕ) (c : Call E)
      → ((j : ℕ) → P j (f j))
      → P i c
      → (j : ℕ) → P j (update f i c j)
  update_all P f i c all here j = elim (Bool-cases (i == j)) [
    | inl same ↦ rw same (subst (λ k. P k c) (same_id i j same) here)
    | inr other ↦ rw other (all j)
  ]

  -- A change that leaves the number of a caller as it is.
  pub same_numbers :
      (f : ℕ → Call E) (i : ℕ) (c : Call E)
      → c.number ≡ (f i).number
      → numbers (update f i c) ≡ numbers f
  same_numbers f i c e = λ t j. update_all (λ k d. d.number ≡ (f k).number) f i c (λ k. refl) e j t
