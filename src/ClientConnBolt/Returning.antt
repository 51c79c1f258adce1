-- ===== src/ClientConnBolt/Returning.antt =====
-- Every step keeps the entries of a caller to the time before it returns.
use sofa_bolt_go.Base.{
  ℕ, ◌≡◌, refl, sym, ap, subst, ◌∙◌, none, some, Bool-cases, Option-cases, inl, inr,
}
use sofa_bolt_go.Command.{Command, is_request, shallow_copy_to, zero_command}
use sofa_bolt_go.Response
use sofa_bolt_go.Response.{Response}
use sofa_bolt_go.Client.{invoke_context}
use sofa_bolt_go.Client.Settled.{Same-invoke_context}
use sofa_bolt_go.Client.Table.{find, remove, insert, update}
use sofa_bolt_go.ClientConnBolt.{
  ClientConnBolt, Call, Stage, starting, numbering, adding, sending, removing, waiting, returned,
  Choice, incremented, invoke_at, Dispatching, idle, delivering, Dispatched, command, broken,
  dispatch, dispatch_at, dispatch_request, dispatch_response, cleanup_pending_requests, deliver,
  Step, caller, loop, close,
}
use sofa_bolt_go.ClientConnBolt.Credit.{early}
use sofa_bolt_go.ClientConnBolt.Dispatch.{deliver-none, deliver-some}
use sofa_bolt_go.ClientConnBolt.Told.{Fair}
use sofa_bolt_go.ClientConnBolt.Settled.{
  remove-IsLess, IsLess-refl, insert-IsLess, own_entry, Settles, SettledCall, AreSettled,
  Settles-IsLess, Settles-nil, AreSettled-update, no_entry, number_call-SettledCall,
  after_send-Settles, select-SettledCall,
}

module _ {E : Type 0} where
  abbrev pub Settled : ClientConnBolt E → Type 0
  Settled w = AreSettled w.calls w.requests

  at_stage :
      (w : ClientConnBolt E) (i : ℕ) (s : Stage E)
      → Settled w
      → (w.calls i).stage ≡ s
      → Settles i (w.calls i).ctx.callback s w.requests
  at_stage w i s h e = subst (λ t. Settles i (w.calls i).ctx.callback t w.requests) e (h i)

  -- The caller goes on, and the table stays.
  goes_on :
      (w : ClientConnBolt E) (i : ℕ) (c : Call E)
      → Settled w
      → SettledCall i c w.requests
      → AreSettled (update w.calls i c) w.requests
  goes_on w i c h s =
      AreSettled-update w.calls w.requests w.requests i c h s (λ j other. IsLess-refl j w.requests)

  invoke_at-AreSettled :
      (choice : Choice E) (i : ℕ) (s : Stage E) (w : ClientConnBolt E)
      → (w.calls i).stage ≡ s
      → Fair w
      → Settled w
      → Settled (invoke_at choice i s w)
  unfolding invoke_at
  invoke_at-AreSettled choice i starting w e f h = goes_on w i _ h (elim (Bool-cases w.closed) [
    | inl closed ↦ rw closed (λ b. no_entry w i f (ap early e))
    | inr lives ↦ rw lives tt
  ])
  invoke_at-AreSettled choice i numbering w e f h = goes_on w i _ h (
      number_call-SettledCall (incremented w) i (w.calls i) w.requests
        (no_entry w i f (ap early e)))
  invoke_at-AreSettled choice i (adding r) w e f h =
      AreSettled-update w.calls w.requests (insert r i w.requests) i _ h
        (own_entry i r w.requests (no_entry w i f (ap early e)))
        (λ j other. insert-IsLess i j r w.requests other)
  invoke_at-AreSettled choice i (sending r) w e f h = goes_on w i _ h (
      after_send-Settles r i choice.send_error (w.calls i) w.requests
        (at_stage w i (sending r) h e))
  invoke_at-AreSettled choice i (removing r result) w e f h =
      AreSettled-update w.calls w.requests (remove r w.requests) i _ h
        (λ b. at_stage w i (removing r result) h e) (λ j other. remove-IsLess j r w.requests)
  invoke_at-AreSettled choice i (waiting r) w e f h =
      goes_on w i _ h (select-SettledCall r i choice.timer_fired w f e (h i))
  invoke_at-AreSettled choice i (returned result) w e f h = h

  response-Settled :
      (cmd : Command) (w : ClientConnBolt E)
      → Settled w
      → Settled (dispatch_response (record { command = cmd; tbconn = none }) w)
  unfolding dispatch_response Response.get_request_id
  response-Settled cmd w h =
      let less : AreSettled w.calls (remove cmd.rid w.requests) = λ j.
        Settles-IsLess j (w.calls j).ctx.callback (w.calls j).stage _ w.requests
          (remove-IsLess j cmd.rid w.requests) (h j) in
      elim (Option-cases (find cmd.rid w.requests)) [
        | inl lost ↦ rw lost less
        | inr (i, here) ↦ rw here less
      ]

  dispatch-Settled :
      (input : Dispatched E) (w : ClientConnBolt E) → Settled w → Settled (dispatch input w)
  unfolding dispatch cleanup_pending_requests dispatch_request
  dispatch-Settled (broken err) w h = λ j. Settles-nil j _ _
  dispatch-Settled (command cmd) w h = elim (Bool-cases (is_request cmd)) [
    | inl request ↦ elim (Bool-cases w.has_handler) [
      | inl has ↦ rw (request, has) h
      | inr lacks ↦ rw (request, lacks) h
    ]
    | inr response ↦ rw response (response-Settled (shallow_copy_to cmd zero_command) w h)
  ]

  from_some : (v v' : ClientConnBolt E) → some v ≡ some v' → Settled v → Settled v'
  from_some v v' e h = let q : v ≡ v' = cc e in subst Settled q h

  deliver-Settled :
      (i : ℕ) (res : Response) (w w' : ClientConnBolt E)
      → Settled w
      → deliver i res w ≡ some w'
      → Settled w'
  deliver-Settled i res w w' h e = elim (Option-cases (invoke_context none res (w.calls i).ctx)) [
    | inl blocked ↦ absurd (cc (sym (deliver-none i res w blocked) ∙ e))
    | inr (ctx, told) ↦
        let same = (Same-invoke_context none res (w.calls i).ctx ctx told).callback in
        from_some _ w' (sym (deliver-some i res w ctx told) ∙ e) (
          goes_on w i (record (w.calls i) { ctx = ctx }) h
            (subst (λ b. Settles i b (w.calls i).stage w.requests) (sym same) (h i)))
  ]

  dispatch_at-Settled :
      (d : Dispatching) (input : Dispatched E) (w w' : ClientConnBolt E)
      → Settled w
      → dispatch_at d input w ≡ some w'
      → Settled w'
  unfolding dispatch_at
  dispatch_at-Settled idle input w w' h e = from_some _ w' e (dispatch-Settled input w h)
  dispatch_at-Settled (delivering i res) input w w' h e = deliver-Settled i res w w' h e

  pub Step-Settled : (w w' : ClientConnBolt E) → Step w w' → Fair w → Settled w → Settled w'
  Step-Settled w _ (caller choice i) f h =
      invoke_at-AreSettled choice i (w.calls i).stage w refl f h
  Step-Settled w _ (loop input w' e) f h = dispatch_at-Settled w.dispatching input w w' h e
  Step-Settled w _ close f h = h
