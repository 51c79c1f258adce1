-- ===== src/Client/Heartbeat.antt =====
-- sofabolt/client.go: `doheartbeat`, by what each heartbeat came to. Sleeping, and the command that is
-- sent, are left out.
use sofa_bolt_go.Base.{
  ℕ, zero, suc, ◌+◌, ◌≡◌, refl, Bool, true, false, not, ◌&&◌, ◌||◌, List, [], ◌∷◌, ◌++◌, ltb,
  if◌then◌else◌, arith, replicate,
}

-- The calls of `onHeartbeat` in order, and whether the loop has ended.
pub record Beats : Type 0 where
  pub told : List Bool
  pub ended : Bool

-- `onHeartbeat`, where it is set.
abbrev pub tell : Bool → Bool → Beats → Beats
tell on success b = record b { told = if on then success ∷ b.told else b.told }

abbrev pub over : Beats
over = record { told = []; ended = true }

-- The loop, from a number of failed probes, for heartbeats that succeed or not. A negative
-- `heartbeatProbes` acts as 0.
unfoldable pub doheartbeat : ℕ → Bool → ℕ → List Bool → Beats
doheartbeat limit on probes [] = record { told = []; ended = false }
doheartbeat limit on probes (success ∷ xs) =
    let again = doheartbeat limit on 0 xs in
    let retry = doheartbeat limit on (probes + 1) xs in
    if success
    then tell on true again
    else if ltb limit (probes + 1)
    then tell on false (if ltb 0 limit then over else retry)
    else retry

-- Do so many failures come at once?
abbrev pub fails_first : ℕ → List Bool → Bool
fails_first zero xs = true
fails_first (suc n) [] = false
fails_first (suc n) (success ∷ xs) = not success && fails_first n xs

-- Do so many failures come in a row, somewhere?
abbrev pub fails_in_row : ℕ → List Bool → Bool
fails_in_row n [] = fails_first n []
fails_in_row n (success ∷ xs) = fails_first n (success ∷ xs) || fails_in_row n xs

-- Successes that the loop saw, and then the failure that ended it.
abbrev IsTelling : Beats → Type 0
IsTelling b = (n : ℕ) × (b.told ≡ replicate n true ++ (if b.ended then false ∷ [] else []))

-- With 0, the loop never ends, and `onHeartbeat` is told of each heartbeat.
pub doheartbeat-endless :
    (on : Bool) (p : ℕ) (xs : List Bool)
    → ((doheartbeat 0 on p xs).ended ≡ false)
      × ((doheartbeat 0 on p xs).told ≡ (if on then xs else []))
unfolding doheartbeat
doheartbeat-endless on p [] = (refl, ground arith)
doheartbeat-endless on p (true ∷ xs) =
    let h = doheartbeat-endless on 0 xs in (h.0, rw h.1 (ground arith))
doheartbeat-endless on p (false ∷ xs) =
    let h = doheartbeat-endless on (p + 1) xs in rw (over_at p) (h.0, rw h.1 (ground arith))
  where
    over_at : (q : ℕ) → ltb 0 (q + 1) ≡ true
    over_at q = ground arith
