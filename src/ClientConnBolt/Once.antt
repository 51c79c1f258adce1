-- ===== src/ClientConnBolt/Once.antt =====
-- Every step keeps the credits, so that each invocation is told at most once, and no send blocks the
-- connection that dispatches.
use sofa_bolt_go.Base.{
  ℕ, Bool, ◌+◌, ◌≤◌, ◌≡◌, refl, ap, false, Option, none, some, List, [], ◌∷◌, ◌==◌, ◌&&◌, arith,
  Bool-cases, inl, inr, length, ltb, u32_max,
}
use sofa_bolt_go.Client.Table.{remove, insert, update}
use sofa_bolt_go.ClientConnBolt.{
  ClientConnBolt, Call, Stage, starting, numbering, adding, sending, removing, waiting, returned,
  Choice, incremented, number_call, after_send, receive, select, invoke_at,
}
use sofa_bolt_go.ClientConnBolt.Credit.{
  early, spent, count, Quiet, IsFair, IsFair-update, count-remove, own,
}

module _ {E : Type 0} where
  -- The caller `i` gives nothing up that it has not, and the table gets no entry of another.
  stays :
      (w : ClientConnBolt E) (i : ℕ) (c : Call E) (ys : List (ℕ × ℕ))
      → IsFair w.calls w.requests w.dispatching
      → Quiet c
      → spent c + count i ys ≤ spent (w.calls i) + count i w.requests
      → ((j : ℕ) → (i == j) ≡ false → count j ys ≤ count j w.requests)
      → IsFair (update w.calls i c) ys w.dispatching
  stays w i c ys h q here there =
      IsFair-update w.calls w.requests ys w.dispatching w.dispatching i c h q (omega (arith, here))
        (λ j other. omega (arith, there j other))

  early-after_send : (r : ℕ) (e : Option E) (c : Call E) → early (after_send r e c) ≡ 0
  unfolding after_send
  early-after_send r (some e) c = refl
  early-after_send r none c = ground arith

  -- What a step of the caller alone does: it takes no credit, and its channel stays what it told.
  abbrev Calm : Call E → Call E → Type 0
  Calm c d = (spent d ≤ spent c) × Quiet d

  number_call-Calm : (id : ℕ) (c : Call E) → early c.stage ≡ 1 → Quiet c → Calm c (number_call id c)
  unfolding number_call
  number_call-Calm id c s q = elim (Bool-cases (ltb u32_max id)) [
    | inl over ↦ rw over (omega arith, q)
    | inr fits ↦ rw fits (omega (arith, s), q)
  ]

  popped :
      (v : Option E) (vs : List (Option E)) (c : Call E)
      → c.ctx.err_ch ≡ v ∷ vs
      → Quiet c
      → length vs ≤ length c.ctx.calls
  popped v vs c e q = omega (arith, ap (λ (us : List (Option E)). length us) e, q)

  receive-Calm :
      (vs : List (Option E)) (c : Call E) → c.ctx.err_ch ≡ vs → Quiet c → Calm c (receive vs c)
  unfolding receive
  receive-Calm [] c e q = (omega arith, q)
  receive-Calm (some x ∷ vs) c e q = (omega arith, popped (some x) vs c e q)
  receive-Calm (none ∷ vs) c e q = (omega arith, popped none vs c e q)

  select-Calm : (r : ℕ) (fired : Bool) (c : Call E) → Quiet c → Calm c (select r fired c)
  unfolding select
  select-Calm r fired c q = elim (Bool-cases (c.ctx.has_timeout && fired)) [
    | inl out ↦ rw out (omega arith, q)
    | inr in_time ↦ rw in_time (receive-Calm c.ctx.err_ch c refl q)
  ]

  moves :
      (w : ClientConnBolt E) (i : ℕ) (c : Call E)
      → IsFair w.calls w.requests w.dispatching
      → Calm (w.calls i) c
      → IsFair (update w.calls i c) w.requests w.dispatching
  moves w i c h (s, q) = stays w i c w.requests h q (omega (arith, s)) (λ j other. omega arith)

  pub invoke_at-IsFair :
      (choice : Choice E) (i : ℕ) (s : Stage E) (w : ClientConnBolt E)
      → (w.calls i).stage ≡ s
      → IsFair w.calls w.requests w.dispatching
      → IsFair
          (invoke_at choice i s w).calls
          (invoke_at choice i s w).requests
          (invoke_at choice i s w).dispatching
  unfolding invoke_at
  invoke_at-IsFair choice i starting w e h = moves w i _ h (elim (Bool-cases w.closed) [
    | inl closed ↦ rw closed (omega (arith, ap early e), h.quiet i)
    | inr lives ↦ rw lives (omega (arith, ap early e), h.quiet i)
  ])
  invoke_at-IsFair choice i numbering w e h =
      moves w i _ h (number_call-Calm (incremented w) (w.calls i) (ap early e) (h.quiet i))
  invoke_at-IsFair choice i (adding r) w e h =
      stays w i _ (insert r i w.requests) h (h.quiet i)
        (rw (own i) (omega (arith, ap early e, count-remove i r w.requests)))
        (λ j other. rw other (omega (arith, count-remove j r w.requests)))
  invoke_at-IsFair choice i (sending r) w e h =
      moves w i _ h (omega (arith, early-after_send r choice.send_error (w.calls i)), h.quiet i)
  invoke_at-IsFair choice i (removing r result) w e h =
      stays w i _ (remove r w.requests) h (h.quiet i) (omega (arith, count-remove i r w.requests))
        (λ j other. count-remove j r w.requests)
  invoke_at-IsFair choice i (waiting r) w e h =
      moves w i _ h (select-Calm r choice.timer_fired (w.calls i) (h.quiet i))
  invoke_at-IsFair choice i (returned result) w e h = h
