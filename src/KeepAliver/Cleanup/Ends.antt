-- ===== src/KeepAliver/Cleanup/Ends.antt =====
-- A client that waits to be closed is closed.
use sofa_bolt_go.Base.{
  ℕ, ◌+◌, ◌≤◌, ◌<◌, ◌≡◌, refl, sym, ap, ◌∙◌, subst, Bool, true, false, ◌||◌, some, List, [], ◌∷◌,
  ltb, leb, ◌==◌, if◌then◌else◌, length, arith, Bool-cases, inl, inr, ◌⊎◌, ==_iff,
}
use sofa_bolt_go.Pool.{mem}
use sofa_bolt_go.KeepAliver.{KeepAliver}
use sofa_bolt_go.KeepAliver.Cleanup.{clean_one, clean_each, tick, ticks, checks}

same_client : (c d : ℕ) → (c == d) ≡ true → c ≡ d
same_client c d h = ground arith

not_leb : (a b : ℕ) → leb a b ≡ false → b + 1 ≤ a
not_leb a b h = ground arith

module _ (max_checks c : ℕ) where
  -- The client was closed, or it waits with `n` checks, of which there are not too many.
  abbrev Goes : ℕ → KeepAliver → Type 0
  Goes n ka = (mem c ka.closed ≡ true) ⊎ ((checks c ka.dying ≡ some n) × (n ≤ max_checks))

  same_mem : (xs : List ℕ) → mem c (c ∷ xs) ≡ true
  same_mem xs = ground arith

  or_later : (a b : Bool) → b ≡ true → (a || b) ≡ true
  or_later true b h = refl
  or_later false b h = h

  later_mem : (d : ℕ) (xs : List ℕ) → mem c xs ≡ true → mem c (d ∷ xs) ≡ true
  later_mem d xs h = or_later (c == d) (mem c xs) h

  -- A client is closed, or kept with one check more.
  clean_cases :
      (d m : ℕ) (ka : KeepAliver)
      → (clean_one max_checks d m ka ≡ (record ka { closed = d ∷ ka.closed }))
        ⊎ ((clean_one max_checks d m ka ≡ (record ka { dying = (d, m + 1) ∷ ka.dying }))
            × (m + 1 ≤ max_checks))
  unfolding clean_one
  clean_cases d m ka = elim (Bool-cases (leb max_checks m)) [
    | inl worn ↦ inl (simp worn)
    | inr fresh ↦ elim (Bool-cases (ltb 0 (ka.references d))) [
      | inl used ↦ inr (simp (fresh, used), not_leb max_checks m fresh)
      | inr unused ↦ inl (simp (fresh, unused))
    ]
  ]

  closed_one :
      (d m : ℕ) (ka : KeepAliver)
      → mem c ka.closed ≡ true
      → mem c (clean_one max_checks d m ka).closed ≡ true
  closed_one d m ka h = elim (clean_cases d m ka) [
    | inl e ↦ rw e (later_mem d ka.closed h)
    | inr (e, _) ↦ rw e h
  ]

  closed_each :
      (visited : List ℕ) (rest : List (ℕ × ℕ)) (ka : KeepAliver)
      → mem c ka.closed ≡ true
      → mem c (clean_each max_checks visited rest ka).closed ≡ true
  unfolding clean_each
  closed_each visited [] ka h = h
  closed_each visited ((d, m) ∷ rest) ka h =
      closed_each (d ∷ visited) rest _ (skipped (mem d visited))
    where
      skipped : (b : Bool) → mem c (if b then ka else clean_one max_checks d m ka).closed ≡ true
      skipped true = h
      skipped false = closed_one d m ka h

  -- What is done to another client does not touch this one.
  other_Goes :
      (d m n : ℕ) (ka : KeepAliver)
      → (c == d) ≡ false
      → Goes n ka
      → Goes n (clean_one max_checks d m ka)
  other_Goes d m n ka o (inl h) = inl (closed_one d m ka h)
  other_Goes d m n ka o (inr (h, le)) = elim (clean_cases d m ka) [
    | inl e ↦ rw e (inr (h, le))
    | inr (e, _) ↦ rw e (inr (rw o h, le))
  ]

  clean_one-Goes : (n : ℕ) (ka : KeepAliver) → Goes (n + 1) (clean_one max_checks c n ka)
  clean_one-Goes n ka = elim (clean_cases c n ka) [
    | inl e ↦ rw e (inl (same_mem ka.closed))
    | inr (e, le) ↦ rw e (inr (rw ((==_iff c c).1 refl) refl, le))
  ]

  visited_once :
      (visited : List ℕ) (d : ℕ)
      → (c == d) ≡ true
      → mem c visited ≡ true
      → mem d visited ≡ false
      → ⊥
  visited_once visited d same v e = cc (sym v ∙ ap (λ k. mem k visited) (same_client c d same) ∙ e)

  -- Behind its entry, a client is not visited again.
  after_entry :
      (visited : List ℕ) (rest : List (ℕ × ℕ)) (n : ℕ) (ka : KeepAliver)
      → mem c visited ≡ true
      → Goes n ka
      → Goes n (clean_each max_checks visited rest ka)
  unfolding clean_each
  after_entry visited [] n ka v g = g
  after_entry visited ((d, m) ∷ rest) n ka v g =
      after_entry (d ∷ visited) rest n _ (later_mem d visited v) (at (mem d visited) refl)
    where
      at : (b : Bool) → mem d visited ≡ b → Goes n (if b then ka else clean_one max_checks d m ka)
      at true e = g
      at false e = elim (Bool-cases (c == d)) [
        | inl same ↦ absurd (visited_once visited d same v e)
        | inr other ↦ other_Goes d m n ka other g
      ]

  own_entry :
      (visited : List ℕ) (rest : List (ℕ × ℕ)) (n : ℕ) (ka : KeepAliver)
      → mem c visited ≡ false
      → Goes (n + 1) (
          clean_each max_checks
            (c ∷ visited)
            rest
            (if mem c visited then ka else clean_one max_checks c n ka))
  own_entry visited rest n ka v = after_entry (c ∷ visited) rest (n + 1) _ (same_mem visited) (
      subst (λ b. Goes (n + 1) (if b then ka else clean_one max_checks c n ka)) (sym v)
        (clean_one-Goes n ka))

  -- Its entry closes it or adds a check.
  before_entry :
      (visited : List ℕ) (rest : List (ℕ × ℕ)) (n : ℕ) (ka : KeepAliver)
      → mem c visited ≡ false
      → checks c rest ≡ some n
      → Goes (n + 1) (clean_each max_checks visited rest ka)
  unfolding clean_each
  before_entry visited [] n ka v e = absurd (cc e)
  before_entry visited ((d, m) ∷ rest) n ka v e = elim (Bool-cases (c == d)) [
    | inl same ↦
        let found : some m ≡ some n =
          sym (ap (λ b. if b then some m else checks c rest) same) ∙ e in
        subst
          (λ k. Goes (n + 1) (
            clean_each max_checks (d ∷ visited) rest
              (if mem d visited then ka else clean_one max_checks d k ka)))
          (cc (sym found))
          (subst
            (λ k. Goes (n + 1) (
              clean_each max_checks (k ∷ visited) rest
                (if mem k visited then ka else clean_one max_checks k n ka)))
            (same_client c d same) (own_entry visited rest n ka v))
    | inr other ↦
        before_entry (d ∷ visited) rest n _ (rw other v)
          (sym (ap (λ b. if b then some m else checks c rest) other) ∙ e)
  ]

  tick-Goes :
      (refs : ℕ → ℕ) (n : ℕ) (ka : KeepAliver) → Goes n ka → Goes (n + 1) (tick max_checks refs ka)
  unfolding tick
  tick-Goes refs n ka (inl h) = inl (closed_each [] ka.dying (record ka { references = refs }) h)
  tick-Goes refs n ka (inr (e, _)) =
      before_entry [] ka.dying n (record ka { references = refs }) refl e

  ticks_close :
      (more : List (ℕ → ℕ)) (n : ℕ) (ka : KeepAliver)
      → Goes n ka
      → max_checks < n + length more
      → mem c (ticks max_checks more ka).closed ≡ true
  unfolding ticks
  ticks_close [] n ka (inl h) b = h
  ticks_close [] n ka (inr (_, le)) b = absurd (omega arith)
  ticks_close (refs ∷ more) n ka g b =
      ticks_close more (n + 1) (tick max_checks refs ka) (tick-Goes refs n ka g) (omega arith)

  -- A client that waits to be closed, with checks that are not above the maximum, is closed at some tick, whatever references its users hold at
  -- each of them: at the latest when its checks and the ticks together exceed the maximum.
  pub ticks-closed :
      (more : List (ℕ → ℕ)) (n : ℕ) (ka : KeepAliver)
      → checks c ka.dying ≡ some n
      → n ≤ max_checks
      → max_checks < n + length more
      → mem c (ticks max_checks more ka).closed ≡ true
  ticks-closed more n ka e le b = ticks_close more n ka (inr (e, le)) b
