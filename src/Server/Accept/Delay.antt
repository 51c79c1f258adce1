-- ===== src/Server/Accept/Delay.antt =====
-- How long `Serve` sleeps.
use sofa_bolt_go.Base.{
  ℕ, zero, suc, ◌*◌, ◌≤◌, ◌≡◌, refl, ◌∙◌, ap, List, [], ◌∷◌, ◌++◌, arith, ltb, if◌then◌else◌,
  append_assoc, append-nil, subst, sym,
}
use sofa_bolt_go.Server.Closing.{Server}
use sofa_bolt_go.Server.Accept.{
  Accepted, temporary, broken, workers_take, workers_full, Accepting, max_delay, next_delay,
  accept_loop, serve,
}

-- Five milliseconds doubled `k` times.
abbrev pub doubled : ℕ → ℕ
doubled zero = 5
doubled (suc k) = doubled k * 2

abbrev pub capped : ℕ → ℕ
capped d = if ltb max_delay d then max_delay else d

-- The delays of `n` temporary errors, the last first, behind `k` earlier ones.
abbrev pub delays : ℕ → ℕ → List ℕ
delays k zero = []
delays k (suc n) = delays (suc k) n ++ (capped (doubled k) ∷ [])

-- The temporary errors before the loop ends.
abbrev pub temporaries : {E : Type 0} → List (Accepted E) → ℕ
temporaries [] = 0
temporaries (temporary e ∷ more) = suc (temporaries more)
temporaries (broken e ∷ more) = 0
temporaries (workers_take c ∷ more) = temporaries more
temporaries (workers_full c ∷ more) = temporaries more

-- The delay behind `k` temporary errors.
abbrev behind : ℕ → ℕ
behind zero = 0
behind (suc k) = capped (doubled k)

doubled-ge : (k : ℕ) → 5 ≤ doubled k
doubled-ge zero = omega arith
doubled-ge (suc k) = omega (arith, doubled-ge k)

next_delay-behind : (k : ℕ) → next_delay (behind k) ≡ capped (doubled k)
unfolding next_delay
next_delay-behind zero = refl
next_delay-behind (suc k) = ground (arith, doubled-ge k)

-- Each of the times is from 5 to 1000 milliseconds.
abbrev pub AreWithin : List ℕ → Type 0
AreWithin [] = Unit
AreWithin (d ∷ ds) = (5 ≤ d) × (d ≤ 1000) × AreWithin ds

AreWithin-append :
    (ds : List ℕ) (d : ℕ) → AreWithin ds → 5 ≤ d → d ≤ 1000 → AreWithin (ds ++ (d ∷ []))
AreWithin-append [] d h p q = (p, q, tt)
AreWithin-append (x ∷ ds) d (a, b, h) p q = (a, b, AreWithin-append ds d h p q)

capped-ge : (d : ℕ) → 5 ≤ d → 5 ≤ capped d
capped-ge d h = ground arith

capped-le : (d : ℕ) → capped d ≤ 1000
capped-le d = ground arith

delays-AreWithin : (k n : ℕ) → AreWithin (delays k n)
delays-AreWithin k zero = tt
delays-AreWithin k (suc n) =
    AreWithin-append (delays (suc k) n) (capped (doubled k)) (delays-AreWithin (suc k) n)
      (capped-ge (doubled k) (doubled-ge k)) (capped-le (doubled k))

module _ {E : Type 0} where
  accept_loop-slept :
      (outcomes : List (Accepted E)) (k : ℕ) (a : Accepting E)
      → a.delay ≡ behind k
      → (accept_loop outcomes a).1.slept ≡ delays k (temporaries outcomes) ++ a.slept
  unfolding accept_loop
  accept_loop-slept [] k a e = refl
  accept_loop-slept (temporary x ∷ more) k a e =
      let d = ap next_delay e ∙ next_delay-behind k in
      accept_loop-slept more (suc k) _ d
      ∙ ap (λ t. delays (suc k) (temporaries more) ++ (t ∷ a.slept)) d
      ∙ simp append_assoc
  accept_loop-slept (broken x ∷ more) k a e = refl
  accept_loop-slept (workers_take c ∷ more) k a e =
      accept_loop-slept more k (record a { taken = c ∷ a.taken }) e
  accept_loop-slept (workers_full c ∷ more) k a e = accept_loop-slept more k _ e

  -- `Serve` sleeps once for each temporary error before it ends, for 5 milliseconds doubled each
  -- time and at most 1000, so that every sleep is from 5 to 1000 milliseconds. The times go on
  -- doubling whatever is accepted in between.
  pub serve-slept :
      (ln : ℕ) (outcomes : List (Accepted E)) (srv : Server)
      → ((serve ln outcomes srv).1.slept ≡ delays 0 (temporaries outcomes))
        × AreWithin (serve ln outcomes srv).1.slept
  unfolding serve
  serve-slept ln outcomes srv =
      let slept = accept_loop-slept outcomes 0 _ refl ∙ append-nil _ in
      (slept, subst AreWithin (sym slept) (delays-AreWithin 0 (temporaries outcomes)))
