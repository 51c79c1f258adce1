-- ===== src/Client/Steps.antt =====
-- Every step of a caller, of the read loop and of a user keeps the client consistent.
use sofa_bolt_go.Base.{
  ℕ, ◌+◌, ◌%◌, ◌≡◌, refl, sym, Bool, true, false, ◌&&◌, Option, none, some, List, [], ◌∷◌, ◌==◌,
  if◌then◌else◌, arith, Bool-cases, inl, inr, Bytes,
}
use sofa_bolt_go.ReadHelper.{ReadHelper}
use sofa_bolt_go.Command
use sofa_bolt_go.Command.{Command, is_request, is_bolt_request, type_bolt_request_one_way}
use sofa_bolt_go.Command.Write.{written, malformed_proto, malformed_type, panicked}
use sofa_bolt_go.Request
use sofa_bolt_go.Request.{Request, RequestWritten, encode_error, command_written}
use sofa_bolt_go.Response
use sofa_bolt_go.Response.{Response}
use sofa_bolt_go.Client.Table.{update}
use sofa_bolt_go.Client.{
  Client, InvokeContext, Phase, goto, starting, checking, numbering, adding, writing, removing,
  waiting, returned, sent, answered, failed, was_closed, not_a_request, timed_out, io, Choice, put,
  Result,
}
use sofa_bolt_go.Client.Invoke.{number, encoded, start_numbering, after_write, select, invoke}
use sofa_bolt_go.Client.Invariant.{
  History, PhaseMatches, NewsMatches, IsConsistent, is_registered, request_id,
}
use sofa_bolt_go.Client.Preserve.{put_pending, add, del}

module _ {E : Type 0} where
  -- A caller that is not registered yet goes on.
  go_early :
      (w : Client E) (i : ℕ) (p : Phase E)
      → IsConsistent w
      → is_registered (w.contexts i).phase ≡ false
      → PhaseMatches (request_id (w.contexts i)) (w.contexts i).res p
      → IsConsistent (put i (goto p (w.contexts i)) w)
  go_early w i p h u m =
      let s = h.contexts i in
      put_pending w.contexts w.requests w.reader i (goto p (w.contexts i)) h
        (record { early = λ v. s.early u; history = s.history; phase = m })
        (λ r q. absurd (cc (u, q.registered)))

  -- A caller that is registered goes on.
  go_late :
      (w : Client E) (i : ℕ) (p : Phase E)
      → IsConsistent w
      → is_registered p ≡ true
      → PhaseMatches (request_id (w.contexts i)) (w.contexts i).res p
      → IsConsistent (put i (goto p (w.contexts i)) w)
  go_late w i p h t m =
      let s = h.contexts i in
      put_pending w.contexts w.requests w.reader i (goto p (w.contexts i)) h
        (record { early = λ v. absurd (cc (t, v)); history = s.history; phase = m })
        (λ r q. record { registered = t; untold = q.untold; silent = q.silent; key = q.key })

  -- What the channel holds is taken from the history.
  take_news :
      (rid : ℕ) (ires : Response) (calls : List (Option E × Option Response)) (v : Option E)
      (vs : List (Option E))
      → History rid ires calls (v ∷ vs)
      → History rid ires calls vs × NewsMatches rid ires v
  take_news rid ires [] v vs h = absurd h
  take_news rid ires (call ∷ []) v [] (m, n) = (m, n)
  take_news rid ires (call ∷ []) v (u ∷ vs) h = absurd h
  take_news rid ires (call ∷ call' ∷ calls) v vs h = absurd h

  answered_phase :
      (i : ℕ) (w : Client E)
      → (w.contexts i).ires.command.rid ≡ request_id (w.contexts i)
      → (Response.copy_to (w.contexts i).ires (w.contexts i).res).command.rid
        ≡ request_id (w.contexts i)
  unfolding Response.copy_to Command.copy_to
  answered_phase i w news = news

  receive_at :
      (w : Client E) (i rid : ℕ) (fired : Bool) (vs : List (Option E))
      → IsConsistent w
      → (w.contexts i).phase ≡ waiting rid
      → (w.contexts i).err_ch ≡ vs
      → ((w.contexts i).has_timeout && fired) ≡ false
      → IsConsistent (put i (select rid fired (w.contexts i)) w)
  unfolding select
  receive_at w i rid fired [] h e q on =
      simp (on, q)
        (put_pending w.contexts w.requests w.reader i (w.contexts i) h (h.contexts i) (λ r p. p))
  receive_at w i rid fired (some err ∷ vs) h e q on =
      let s = h.contexts i in
      let (past, news) =
        take_news (request_id (w.contexts i)) (w.contexts i).ires (w.contexts i).calls (some err) vs
          (rw (sym q) s.history) in
      simp (on, q)
        (put_pending w.contexts w.requests w.reader i _ h
          (record { early = λ v. absurd (cc v); history = past; phase = tt })
          (λ r p. absurd (cc (p.silent, q))))
  receive_at w i rid fired (none ∷ vs) h e q on =
      let s = h.contexts i in
      let (past, news) =
        take_news (request_id (w.contexts i)) (w.contexts i).ires (w.contexts i).calls none vs
          (rw (sym q) s.history) in
      simp (on, q)
        (put_pending w.contexts w.requests w.reader i _ h
          (record { early = λ v. absurd (cc v); history = past; phase = answered_phase i w news })
          (λ r p. absurd (cc (p.silent, q))))

  select_at :
      (w : Client E) (i rid : ℕ) (fired : Bool)
      → IsConsistent w
      → (w.contexts i).phase ≡ waiting rid
      → IsConsistent (put i (select rid fired (w.contexts i)) w)
  unfolding select
  select_at w i rid fired h e = elim (Bool-cases ((w.contexts i).has_timeout && fired)) [
    | inl out ↦ rw out (go_late w i (removing rid (failed timed_out)) h refl tt)
    | inr on ↦ receive_at w i rid fired (w.contexts i).err_ch h e refl on
  ]

  result_at :
      (id rid : ℕ) (res : Response) (result : Result E)
      → PhaseMatches id res (removing rid result)
      → PhaseMatches id res (returned result)
  result_at id rid res sent m = tt
  result_at id rid res answered m = absurd m
  result_at id rid res (failed err) m = tt

  -- Behind `write` the caller is registered, and has no answer.
  after_write-phase :
      (rid id : ℕ) (res : Response) (err : Option E) (c : InvokeContext E)
      → (is_registered (after_write rid err c) ≡ true) × PhaseMatches id res (after_write rid err c)
  unfolding after_write
  after_write-phase rid id res (some err) c = (refl, tt)
  after_write-phase rid id res none c =
      elim (Bool-cases (c.req.command.typ == type_bolt_request_one_way)) [
        | inl one_way ↦ rw one_way (refl, tt)
        | inr two_way ↦ rw two_way (elim (Bool-cases c.callback) [
          | inl on ↦ rw on (refl, tt)
          | inr off ↦ rw off (refl, tt)
        ])
      ]

  check_at :
      (w : Client E) (i : ℕ)
      → IsConsistent w
      → is_registered (w.contexts i).phase ≡ false
      → IsConsistent (
          put i
            (goto
              (if is_bolt_request (w.contexts i).req.command.typ
                then numbering
                else returned (failed not_a_request))
              (w.contexts i))
            w)
  check_at w i h u = elim (Bool-cases (is_bolt_request (w.contexts i).req.command.typ)) [
    | inl good ↦ rw good (go_early w i numbering h u tt)
    | inr bad ↦ rw bad (go_early w i (returned (failed not_a_request)) h u tt)
  ]

  encoded-PhaseMatches :
      (rid id : ℕ) (res : Response) (v : RequestWritten E)
      → id ≡ rid
      → PhaseMatches id res (encoded rid v)
  unfolding encoded
  encoded-PhaseMatches rid id res (encode_error err) k = tt
  encoded-PhaseMatches rid id res (command_written (written dst)) k = k
  encoded-PhaseMatches rid id res (command_written malformed_proto) k = tt
  encoded-PhaseMatches rid id res (command_written malformed_type) k = tt
  encoded-PhaseMatches rid id res (command_written panicked) k = tt

module _ (rh : ReadHelper) {E : Type 0} (encode : Option ℕ → Option E × Bytes) where
  numbered_at :
      (w : Client E) (i rid : ℕ) (req : Request)
      → IsConsistent w
      → is_registered (w.contexts i).phase ≡ false
      → Request.get_request_id req ≡ rid
      → IsConsistent (
          put i
            (record (w.contexts i) {
              req = req;
              phase = encoded rid (Request.write rh encode [] req);
            })
            w)
  numbered_at w i rid req h u k =
      let s = h.contexts i in
      let (untold, silent) = s.early u in
      put_pending w.contexts w.requests w.reader i _ h
        (record {
          early = λ v. (untold, silent);
          history = rw (untold, silent) tt;
          phase =
              encoded-PhaseMatches rid (Request.get_request_id req) (w.contexts i).res
                (Request.write rh encode [] req) k;
        })
        (λ r q. absurd (cc (u, q.registered)))

  start_numbering-IsConsistent :
      (w : Client E) (i : ℕ)
      → IsConsistent w
      → is_registered (w.contexts i).phase ≡ false
      → IsConsistent (start_numbering rh encode i w)
  unfolding start_numbering number
  start_numbering-IsConsistent w i h u =
      let rid = (w.rid + 1) % 4294967296 in
      elim (Bool-cases w.disable_auto_increment_request_id) [
        | inl off ↦ rw off (
            numbered_at w i (Request.get_request_id (w.contexts i).req) (w.contexts i).req h u refl)
        | inr on ↦ rw on (
            numbered_at w i rid (Request.set_request_id rid (w.contexts i).req) h u
              (Request.get-set_request_id rid (w.contexts i).req (omega arith)))
      ]

  checking_at :
      (w : Client E) (choice : Choice E) (i : ℕ) (r : Option E)
      → IsConsistent w
      → (w.contexts i).phase ≡ checking
      → w.rerr ≡ r
      → IsConsistent (invoke rh encode choice i w)
  unfolding invoke
  checking_at w choice i (some err) h e q =
      rw (e, q) (go_early w i (returned (failed (io err))) h (rw e refl) tt)
  checking_at w choice i none h e q = rw (e, q) (check_at w i h (rw e refl))

  pub invoke_at :
      (w : Client E) (choice : Choice E) (i : ℕ) (p : Phase E)
      → IsConsistent w
      → (w.contexts i).phase ≡ p
      → IsConsistent (invoke rh encode choice i w)
  unfolding invoke
  invoke_at w choice i starting h e = rw e (elim (Bool-cases w.closed) [
    | inl shut ↦ rw shut (go_early w i (returned (failed was_closed)) h (rw e refl) tt)
    | inr up ↦ rw up (go_early w i checking h (rw e refl) tt)
  ])
  invoke_at w choice i checking h e = checking_at w choice i w.rerr h e refl
  invoke_at w choice i numbering h e = rw e (start_numbering-IsConsistent w i h (rw e refl))
  invoke_at w choice i (adding rid dst) h e =
      let s = h.contexts i in
      let u : is_registered (w.contexts i).phase ≡ false = rw e refl in
      let k : PhaseMatches {E = E} (request_id (w.contexts i)) (w.contexts i).res (adding rid dst) =
        rw e at s.phase in
      rw e (
        add w.contexts w.requests w.reader i rid (goto (writing rid dst) (w.contexts i)) h u
          (record { early = λ v. s.early u; history = s.history; phase = tt })
          (record { registered = refl; untold = (s.early u).0; silent = (s.early u).1; key = k }))
  invoke_at w choice i (writing rid dst) h e =
      let c = w.contexts i in
      let (registered, matches) = after_write-phase rid (request_id c) c.res choice.write_error c in
      rw e (go_late w i (after_write rid choice.write_error c) h registered matches)
  invoke_at w choice i (removing rid result) h e =
      let m : PhaseMatches {E = E} (request_id (w.contexts i)) (w.contexts i).res
          (removing rid result) =
        rw e at (h.contexts i).phase in
      let moved : IsConsistent (put i (goto (returned result) (w.contexts i)) w) =
        go_late w i (returned result) h refl
          (result_at (request_id (w.contexts i)) rid (w.contexts i).res result m) in
      rw e (
        del (update w.contexts i (goto (returned result) (w.contexts i))) w.requests w.reader rid
          moved)
  invoke_at w choice i (waiting rid) h e = rw e (select_at w i rid choice.timer_fired h e)
  invoke_at w choice i (returned result) h e = rw e h
