-- ===== src/Client/Returning.antt =====
-- A caller that returns leaves no entry of the table to its context, if it has no callback.
use sofa_bolt_go.Base.{
  ℕ, ◌≡◌, refl, Bool, true, false, ◌&&◌, Option, none, some, List, [], ◌∷◌, ◌==◌, arith, Bool-cases,
  inl, inr, Bytes,
}
use sofa_bolt_go.ReadHelper.{ReadHelper}
use sofa_bolt_go.Command.{is_bolt_request, type_bolt_request_one_way}
use sofa_bolt_go.Command.Write.{written, malformed_proto, malformed_type, panicked}
use sofa_bolt_go.Request.{RequestWritten, encode_error, command_written}
use sofa_bolt_go.Client.Table.{remove, insert, update}
use sofa_bolt_go.Client.{
  Client, InvokeContext, Phase, goto, starting, checking, numbering, adding, writing, removing,
  waiting, returned, failed, was_closed, not_a_request, timed_out, io, Choice,
}
use sofa_bolt_go.Client.Invoke.{encoded, start_numbering, after_write, select, invoke}
use sofa_bolt_go.Client.Invariant.{NotTarget, IsConsistent, PhaseMatches, request_id, is_registered}
use sofa_bolt_go.Client.Entries.{NotTarget-remove, unregistered-NotTarget}
use sofa_bolt_go.Client.Settled.{
  is_returned, Keyed, IsSettled, IsSettled-update, NotTarget-remove_own, NotTarget-loud,
}

flip_id : (i j : ℕ) → (i == j) ≡ false → (j == i) ≡ false
flip_id i j h = ground arith

module _ {E : Type 0} where
  abbrev pub Settled : Client E → Type 0
  Settled w = IsSettled w.contexts w.requests

  -- A caller goes on, and the table stays.
  moves :
      (w : Client E) (i : ℕ) (c : InvokeContext E)
      → Settled w
      → Keyed (request_id c) c.phase
      → (c.callback ≡ false → is_returned c.phase ≡ true → NotTarget i w.requests)
      → IsSettled (update w.contexts i c) w.requests
  moves w i c h k g = IsSettled-update w.contexts w.requests w.requests i c h k g (λ j other n. n)

  -- A caller that is not registered is in no entry.
  early :
      (w : Client E) (i : ℕ) (p : Phase E)
      → IsConsistent w
      → Settled w
      → is_registered (w.contexts i).phase ≡ false
      → Keyed (request_id (w.contexts i)) p
      → IsSettled (update w.contexts i (goto p (w.contexts i))) w.requests
  early w i p s h u k =
      moves w i (goto p (w.contexts i)) h k
        (λ b r. unregistered-NotTarget w.contexts i w.requests s.requests u)

module _ (rh : ReadHelper) {E : Type 0} (encode : Option ℕ → Option E × Bytes) where
  encoded-Keyed : (id rid : ℕ) (r : RequestWritten E) → Keyed id (encoded rid r)
  unfolding encoded
  encoded-Keyed id rid (encode_error e) = tt
  encoded-Keyed id rid (command_written (written dst)) = tt
  encoded-Keyed id rid (command_written malformed_proto) = tt
  encoded-Keyed id rid (command_written malformed_type) = tt
  encoded-Keyed id rid (command_written panicked) = tt

  after_write-Keyed :
      (id rid : ℕ) (e : Option E) (c : InvokeContext E) → id ≡ rid → Keyed id (after_write rid e c)
  unfolding after_write
  after_write-Keyed id rid (some e) c k = k
  after_write-Keyed id rid none c k =
      elim (Bool-cases (c.req.command.typ == type_bolt_request_one_way)) [
        | inl alone ↦ rw alone k
        | inr two ↦ elim (Bool-cases c.callback) [
          | inl on ↦ rw (two, on) tt
          | inr off ↦ rw (two, off) k
        ]
      ]

  after_write-waits :
      (rid : ℕ) (e : Option E) (c : InvokeContext E)
      → c.callback ≡ false
      → is_returned (after_write rid e c) ≡ false
  unfolding after_write
  after_write-waits rid (some e) c off = refl
  after_write-waits rid none c off =
      elim (Bool-cases (c.req.command.typ == type_bolt_request_one_way)) [
        | inl alone ↦ rw alone refl
        | inr two ↦ rw (two, off) refl
      ]

  disagree : (b : Bool) → b ≡ true → b ≡ false → ⊥
  disagree b t f = cc

  numbering_at :
      (w : Client E) (i : ℕ)
      → IsConsistent w
      → Settled w
      → is_registered (w.contexts i).phase ≡ false
      → Settled (start_numbering rh encode i w)
  unfolding start_numbering
  numbering_at w i s h u =
      moves w i _ h (encoded-Keyed _ _ _)
        (λ b r. unregistered-NotTarget w.contexts i w.requests s.requests u)

  check_at :
      (w : Client E) (choice : Choice E) (i : ℕ) (r : Option E)
      → IsConsistent w
      → Settled w
      → (w.contexts i).phase ≡ checking
      → w.rerr ≡ r
      → Settled (invoke rh encode choice i w)
  unfolding invoke
  check_at w choice i (some err) s h e q =
      rw (e, q) (early w i (returned (failed (io err))) s h (rw e refl) tt)
  check_at w choice i none s h e q =
      rw (e, q)
        (elim (Bool-cases (is_bolt_request (w.contexts i).req.command.typ)) [
          | inl ok ↦ rw ok (early w i numbering s h (rw e refl) tt)
          | inr bad ↦ rw bad (early w i (returned (failed not_a_request)) s h (rw e refl) tt)
        ])

  select_at :
      (w : Client E) (i rid : ℕ) (fired : Bool) (vs : List (Option E))
      → IsConsistent w
      → Settled w
      → (w.contexts i).phase ≡ waiting rid
      → (w.contexts i).err_ch ≡ vs
      → ((w.contexts i).has_timeout && fired) ≡ false
      → IsSettled (update w.contexts i (select rid fired (w.contexts i))) w.requests
  unfolding select
  select_at w i rid fired [] s h e q on = rw (on, q) (moves w i _ h (h.keyed i) (h.gone i))
  select_at w i rid fired (some x ∷ vs) s h e q on =
      rw (on, q)
        (moves w i _ h tt (λ b r. NotTarget-loud w.contexts i w.requests (some x) vs s.requests q))
  select_at w i rid fired (none ∷ vs) s h e q on =
      rw (on, q)
        (moves w i _ h tt (λ b r. NotTarget-loud w.contexts i w.requests none vs s.requests q))

  waiting_at :
      (w : Client E) (i rid : ℕ) (fired : Bool)
      → IsConsistent w
      → Settled w
      → (w.contexts i).phase ≡ waiting rid
      → IsSettled (update w.contexts i (select rid fired (w.contexts i))) w.requests
  unfolding select
  waiting_at w i rid fired s h e = elim (Bool-cases ((w.contexts i).has_timeout && fired)) [
    | inl out ↦ rw out (
        moves w i (goto (removing rid (failed timed_out)) (w.contexts i)) h (rw e at (h.keyed i))
          (λ b r. absurd (disagree _ r refl)))
    | inr inside ↦ select_at w i rid fired (w.contexts i).err_ch s h e refl inside
  ]

  pub invoke-Settled :
      (w : Client E) (choice : Choice E) (i : ℕ) (p : Phase E)
      → IsConsistent w
      → Settled w
      → (w.contexts i).phase ≡ p
      → Settled (invoke rh encode choice i w)
  unfolding invoke
  invoke-Settled w choice i starting s h e = rw e (elim (Bool-cases w.closed) [
    | inl shut ↦ rw shut (early w i (returned (failed was_closed)) s h (rw e refl) tt)
    | inr up ↦ rw up (early w i checking s h (rw e refl) tt)
  ])
  invoke-Settled w choice i checking s h e = check_at w choice i w.rerr s h e refl
  invoke-Settled w choice i numbering s h e = rw e (numbering_at w i s h (rw e refl))
  invoke-Settled w choice i (adding rid dst) s h e =
      let k : PhaseMatches {E = E} (request_id (w.contexts i)) (w.contexts i).res (adding rid dst) =
        rw e at (s.contexts i).phase in
      rw e (
        IsSettled-update w.contexts w.requests (insert rid i w.requests) i
          (goto (writing rid dst) (w.contexts i)) h k (λ b r. absurd (disagree _ r refl))
          (λ j other n. (flip_id i j other, NotTarget-remove rid j w.requests n)))
  invoke-Settled w choice i (writing rid dst) s h e = rw e (
      moves w i (goto (after_write rid choice.write_error (w.contexts i)) (w.contexts i)) h
        (after_write-Keyed _ rid choice.write_error (w.contexts i) (rw e at (h.keyed i)))
        (λ b r. absurd (disagree _ r (after_write-waits rid choice.write_error (w.contexts i) b))))
  invoke-Settled w choice i (removing rid result) s h e = rw e (
      IsSettled-update w.contexts w.requests (remove rid w.requests) i
        (goto (returned result) (w.contexts i)) h tt
        (λ b r. NotTarget-remove_own w.contexts rid i w.requests s.requests (rw e at (h.keyed i)))
        (λ j other n. NotTarget-remove rid j w.requests n))
  invoke-Settled w choice i (waiting rid) s h e = rw e (waiting_at w i rid choice.timer_fired s h e)
  invoke-Settled w choice i (returned result) s h e = rw e h
