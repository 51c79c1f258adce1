-- ===== src/KeepAliver/Cleanup.antt =====
-- sofabolt/keepaliver.go: `doCleanup`, which closes the clients that wait to be closed.
pub mod Ends
use sofa_bolt_go.Base.{
  ℕ, suc, ◌+◌, ◌≤◌, ◌<◌, ◌≡◌, refl, sym, ap, ◌∙◌, subst, Bool, true, false, ◌||◌, Option, none,
  some, List, [], ◌∷◌, ltb, leb, ◌==◌, if◌then◌else◌, length, arith, Bool-cases, inl, inr, ◌⊎◌,
  ==_iff,
}
use sofa_bolt_go.Pool.{mem}
use sofa_bolt_go.KeepAliver.{KeepAliver}

-- `max_checks` is `CleanupMaxChecks`.
module _ (max_checks : ℕ) where
  -- A client with its checks.
  unfoldable pub clean_one : ℕ → ℕ → KeepAliver → KeepAliver
  clean_one c n ka =
      if leb max_checks n
      then record ka { closed = c ∷ ka.closed }
      else if ltb 0 (ka.references c)
      then record ka { dying = (c, n + 1) ∷ ka.dying }
      else record ka { closed = c ∷ ka.closed }

  -- `Range` visits each client once, with the entry that counts.
  unfoldable pub clean_each : List ℕ → List (ℕ × ℕ) → KeepAliver → KeepAliver
  clean_each visited [] ka = ka
  clean_each visited ((c, n) ∷ rest) ka =
      clean_each (c ∷ visited) rest (if mem c visited then ka else clean_one c n ka)

  -- A tick, with the references that the clients have then.
  unfoldable pub tick : (ℕ → ℕ) → KeepAliver → KeepAliver
  tick refs ka = clean_each [] ka.dying (record ka { references = refs })

  unfoldable pub ticks : List (ℕ → ℕ) → KeepAliver → KeepAliver
  ticks [] ka = ka
  ticks (refs ∷ more) ka = ticks more (tick refs ka)

-- The checks of a client that waits.
abbrev pub checks : ℕ → List (ℕ × ℕ) → Option ℕ
checks c [] = none
checks c ((d, n) ∷ rest) = if c == d then some n else checks c rest
