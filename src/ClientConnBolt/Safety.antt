-- ===== src/ClientConnBolt/Safety.antt =====
-- What any interleaving of callers and dispatches keeps, where each call has a context of its own, and
-- what follows for an answer. Pooled has the runs in which contexts are used again.
use sofa_bolt_go.Base.{
  ℕ, ◌^◌, ◌≤◌, ◌<◌, ◌≡◌, refl, sym, ap, ◌∙◌, subst, Option, none, some, [], arith, u32_max,
  Bool-cases, inl, inr, Option-cases,
}
use sofa_bolt_go.Client.{invoke_context}
use sofa_bolt_go.Command.{Command, is_request, shallow_copy_to, zero_command}
use sofa_bolt_go.Client.Table.{find}
use sofa_bolt_go.Response
use sofa_bolt_go.Response.{Response}
use sofa_bolt_go.ClientConnBolt.{
  ClientConnBolt, starting, returned, answered, idle, Dispatching, delivering, Choice, Stage,
  numbering, adding, sending, waiting, removing, invoke_at, dispatch_at, dispatch, deliver,
  Dispatched, command, broken, Step, caller, loop, close, Run, done, later, dispatch_request,
  dispatch_response, cleanup_pending_requests,
}
use sofa_bolt_go.ClientConnBolt.Invariant.{IsConsistent, Staged}
use sofa_bolt_go.ClientConnBolt.Steps.{invoke_at-IsConsistent}
use sofa_bolt_go.ClientConnBolt.Dispatch.{deliver-none, deliver-some, dispatch_at-IsConsistent}

-- A client before its first invocation.
pub record IsFresh {E : Type 0} (w : ClientConnBolt E) : Type 0 where
  pub requests : w.requests ≡ []
  pub dispatching : w.dispatching ≡ idle
  pub stage : (i : ℕ) → (w.calls i).stage ≡ starting
  pub number : (i : ℕ) → (w.calls i).number ≡ none
  pub err_ch : (i : ℕ) → (w.calls i).ctx.err_ch ≡ []

module _ {E : Type 0} where
  pub fresh-IsConsistent : (w : ClientConnBolt E) → IsFresh w → IsConsistent w
  fresh-IsConsistent w f = record {
    sound = λ i. record {
      bounded = λ r e. absurd (cc (sym (f.number i) ∙ e));
      staged =
          subst (λ s. Staged s (w.calls i).number (w.calls i).ctx.res.command.rid) (sym (f.stage i))
            (f.number i);
      told = rw (f.err_ch i) tt;
    };
    distinct = λ i j r e e'. absurd (cc (sym (f.number i) ∙ e));
    entries = rw f.requests tt;
    delivers = rw f.dispatching tt;
  }

  -- The counter never goes back.
  invoke_at-le :
      (choice : Choice E) (i : ℕ) (s : Stage E) (w : ClientConnBolt E)
      → w.increments ≤ (invoke_at choice i s w).increments
  unfolding invoke_at
  invoke_at-le choice i starting w = omega arith
  invoke_at-le choice i numbering w = omega arith
  invoke_at-le choice i (adding r) w = omega arith
  invoke_at-le choice i (sending r) w = omega arith
  invoke_at-le choice i (waiting r) w = omega arith
  invoke_at-le choice i (removing r result) w = omega arith
  invoke_at-le choice i (returned result) w = omega arith

  increments-response :
      (cmd : Command) (w : ClientConnBolt E)
      → (dispatch_response (record { command = cmd; tbconn = none }) w).increments ≡ w.increments
  unfolding dispatch_response Response.get_request_id
  increments-response cmd w = elim (Option-cases (find cmd.rid w.requests)) [
    | inl lost ↦ rw lost refl
    | inr (i, here) ↦ rw here refl
  ]

  increments-dispatch :
      (input : Dispatched E) (w : ClientConnBolt E) → (dispatch input w).increments ≡ w.increments
  unfolding dispatch cleanup_pending_requests dispatch_request
  increments-dispatch (broken err) w = refl
  increments-dispatch (command cmd) w = elim (Bool-cases (is_request cmd)) [
    | inl request ↦ elim (Bool-cases w.has_handler) [
      | inl has ↦ rw (request, has) refl
      | inr lacks ↦ rw (request, lacks) refl
    ]
    | inr response ↦ rw response (increments-response (shallow_copy_to cmd zero_command) w)
  ]

  abbrev increments_of : Option (ClientConnBolt E) → ℕ
  increments_of none = 0
  increments_of (some v) = v.increments

  increments-deliver :
      (i : ℕ) (res : Response) (w w' : ClientConnBolt E)
      → deliver i res w ≡ some w'
      → w'.increments ≡ w.increments
  increments-deliver i res w w' e = elim (Option-cases (invoke_context none res (w.calls i).ctx)) [
    | inl blocked ↦ absurd (cc (sym (deliver-none i res w blocked) ∙ e))
    | inr (ctx, told) ↦ sym (ap increments_of (sym (deliver-some i res w ctx told) ∙ e))
  ]

  increments-dispatch_at :
      (d : Dispatching) (input : Dispatched E) (w w' : ClientConnBolt E)
      → dispatch_at d input w ≡ some w'
      → w'.increments ≡ w.increments
  unfolding dispatch_at
  increments-dispatch_at idle input w w' e = sym (ap increments_of e) ∙ increments-dispatch input w
  increments-dispatch_at (delivering i res) input w w' e = increments-deliver i res w w' e

  pub step-le : (w w' : ClientConnBolt E) → Step w w' → w.increments ≤ w'.increments
  step-le w _ (caller choice i) = invoke_at-le choice i (w.calls i).stage w
  step-le w _ (loop input w' e) = omega (arith, increments-dispatch_at w.dispatching input w w' e)
  step-le w _ close = omega arith

  pub step-IsConsistent :
      (w w' : ClientConnBolt E)
      → w'.increments < 2 ^ 64
      → Step w w'
      → IsConsistent w
      → IsConsistent w'
  step-IsConsistent w _ b (caller choice i) h =
      invoke_at-IsConsistent choice i (w.calls i).stage w h (h.sound i).staged b
  step-IsConsistent w _ b (loop input w' e) h =
      dispatch_at-IsConsistent w.dispatching input w w' h h.delivers e
  step-IsConsistent w _ b close h = record {
    sound = h.sound;
    distinct = h.distinct;
    entries = h.entries;
    delivers = h.delivers;
  }

  run-IsConsistent :
      (w w' : ClientConnBolt E) → IsFresh w → w'.increments < 2 ^ 64 → Run w w' → IsConsistent w'
  run-IsConsistent w _ f b done = fresh-IsConsistent w f
  run-IsConsistent w _ f b (later w' w'' r s) =
      step-IsConsistent w' w'' b s (run-IsConsistent w w' f (omega (arith, b, step-le w' w'' s)) r)

  -- In any interleaving of callers, dispatches and closes of a new client, with less than 2^64
  -- invocations, each with a context of its own: where `invoke` returned nil with a response, the response has the id that was given
  -- to this call's request, an id of 32 bits, and no other call was ever given that id.
  pub answered-number :
      (w w' : ClientConnBolt E) (i : ℕ)
      → IsFresh w
      → w'.increments < 2 ^ 64
      → Run w w'
      → (w'.calls i).stage ≡ returned answered
      → ((w'.calls i).number ≡ some (w'.calls i).ctx.res.command.rid)
        × ((w'.calls i).ctx.res.command.rid ≤ u32_max)
        × ((j : ℕ) → (w'.calls j).number ≡ some (w'.calls i).ctx.res.command.rid → j ≡ i)
  answered-number w w' i f b r e =
      let h = run-IsConsistent w w' f b r in
      let n =
        subst (λ s. Staged s (w'.calls i).number (w'.calls i).ctx.res.command.rid) e
          (h.sound i).staged in
      (n, ((h.sound i).bounded _ n).1, λ j at_j. h.distinct j i _ at_j n)
