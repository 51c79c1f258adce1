-- ===== src/ClientConnBolt/Told.antt =====
-- In any run of a new client in which each call has a context of its own, each invocation is told at most
-- once, and no send blocks the dispatch. Pooled has the runs in which contexts are used again.
use sofa_bolt_go.Base.{
  ℕ, ◌+◌, ◌≤◌, ◌≡◌, refl, ap, subst, ◌∙◌, none, some, List, [], ◌∷◌, ◌==◌, arith, Bool-cases,
  Option-cases, inl, inr, length,
}
use sofa_bolt_go.Response
use sofa_bolt_go.Response.{Response}
use sofa_bolt_go.Command.{Command, is_request, shallow_copy_to, zero_command}
use sofa_bolt_go.Client.Table.{find, remove}
use sofa_bolt_go.Client.Entries.{same_id}
use sofa_bolt_go.ClientConnBolt.{
  ClientConnBolt, Call, Dispatching, idle, delivering, cleanup_pending_requests, dispatch_request,
  dispatch_response, dispatch, Dispatched, command, broken, deliver, dispatch_at, dispatch_step,
  Step, caller, loop, close, Run, done, later,
}
use sofa_bolt_go.ClientConnBolt.Dispatch.{deliver-some}
use sofa_bolt_go.ClientConnBolt.Safety.{IsFresh}
use sofa_bolt_go.ClientConnBolt.Credit.{
  count, held, one_if, IsFair, IsFair-update, count-remove, count-find, invoke_context-tells,
  abort_calls-IsFair, abort_calls-tells, untold, own,
}
use sofa_bolt_go.ClientConnBolt.Once.{invoke_at-IsFair}

found-le :
    (r i j : ℕ) (xs : List (ℕ × ℕ))
    → find r xs ≡ some i
    → count j (remove r xs) + one_if i j ≤ count j xs
found-le r i j xs e = elim (Bool-cases (i == j)) [
  | inl same ↦
      rw same (
        subst (λ k. count k (remove r xs) + 1 ≤ count k xs) (same_id i j same)
          (count-find r i xs e))
  | inr other ↦ rw other (omega (arith, count-remove j r xs))
]

module _ {E : Type 0} where
  abbrev pub Fair : ClientConnBolt E → Type 0
  Fair w = IsFair w.calls w.requests w.dispatching

  -- The caller is told, and the step does not block.
  deliver-Fair :
      (i : ℕ) (res : Response) (w : ClientConnBolt E)
      → Fair w
      → w.dispatching ≡ delivering i res
      → (w' : ClientConnBolt E) × (deliver i res w ≡ some w') × Fair w'
  deliver-Fair i res w h e =
      let here : held i w.dispatching ≡ 1 = ap (held i) e ∙ rw (own i) refl in
      let (ctx, told, n, q) =
        invoke_context-tells none res (w.calls i).ctx
          (untold w.calls w.requests w.dispatching i h (omega (arith, here))).1 in
      (
        _,
        deliver-some i res w ctx told,
        IsFair-update w.calls w.requests w.requests w.dispatching idle i
            (record (w.calls i) { ctx = ctx }) h q (omega (arith, n, here))
            (λ j other. omega arith),
      )

  -- An entry leaves the table.
  removed-IsFair :
      (f : ℕ → Call E) (xs ys : List (ℕ × ℕ)) (d e : Dispatching)
      → IsFair f xs d
      → ((j : ℕ) → count j ys + held j e ≤ count j xs + held j d)
      → IsFair f ys e
  removed-IsFair f xs ys d e h l = record {
    once = λ j. omega (arith, h.once j, l j);
    quiet = h.quiet;
  }

  dispatch_response-Fair :
      (cmd : Command) (w : ClientConnBolt E)
      → Fair w
      → w.dispatching ≡ idle
      → Fair (dispatch_response (record { command = cmd; tbconn = none }) w)
  unfolding dispatch_response Response.get_request_id
  dispatch_response-Fair cmd w h e = elim (Option-cases (find cmd.rid w.requests)) [
    | inl lost ↦ rw lost (
        removed-IsFair w.calls w.requests (remove cmd.rid w.requests) w.dispatching w.dispatching h
          (λ j. omega (arith, count-remove j cmd.rid w.requests)))
    | inr (i, here) ↦ rw here (
        removed-IsFair w.calls w.requests (remove cmd.rid w.requests) w.dispatching
          (delivering i (record { command = cmd; tbconn = none })) h
          (λ j. omega (arith, found-le cmd.rid i j w.requests here)))
  ]

  dispatch-Fair :
      (input : Dispatched E) (w : ClientConnBolt E)
      → Fair w
      → w.dispatching ≡ idle
      → Fair (dispatch input w)
  unfolding dispatch cleanup_pending_requests dispatch_request
  dispatch-Fair (broken err) w h e = abort_calls-IsFair err w.requests w.calls w.dispatching h
  dispatch-Fair (command cmd) w h e = elim (Bool-cases (is_request cmd)) [
    | inl request ↦ elim (Bool-cases w.has_handler) [
      | inl has ↦ rw (request, has) h
      | inr lacks ↦ rw (request, lacks) h
    ]
    | inr response ↦ rw response (dispatch_response-Fair (shallow_copy_to cmd zero_command) w h e)
  ]

  pub dispatch_at-Fair :
      (d : Dispatching) (input : Dispatched E) (w : ClientConnBolt E)
      → Fair w
      → w.dispatching ≡ d
      → (w' : ClientConnBolt E) × (dispatch_at d input w ≡ some w') × Fair w'
  unfolding dispatch_at
  dispatch_at-Fair idle input w h e = (dispatch input w, refl, dispatch-Fair input w h e)
  dispatch_at-Fair (delivering i res) input w h e = deliver-Fair i res w h e

  pub Step-Fair : (w w' : ClientConnBolt E) → Step w w' → Fair w → Fair w'
  Step-Fair w _ (caller choice i) h = invoke_at-IsFair choice i (w.calls i).stage w refl h
  Step-Fair w _ (loop input w' e) h =
      let (v, q, k) = dispatch_at-Fair w.dispatching input w h refl in
      let same : w' ≡ v = cc (e, q) in rw same k
  Step-Fair w _ close h = record { once = h.once; quiet = h.quiet }

  pub fresh-Fair :
      (w : ClientConnBolt E) → IsFresh w → ((i : ℕ) → (w.calls i).ctx.calls ≡ []) → Fair w
  fresh-Fair w f z = record {
    once = λ j. rw (f.stage j, f.requests, f.dispatching, z j) (omega arith);
    quiet = λ j. rw (f.err_ch j) (omega arith);
  }

  Run-Fair : (w w' : ClientConnBolt E) → Fair w → Run w w' → Fair w'
  Run-Fair w _ h done = h
  Run-Fair w _ h (later w' w'' r s) = Step-Fair w' w'' s (Run-Fair w w' h r)

  -- In any interleaving of callers, dispatches and closes of a new client that told nobody yet, where
  -- each call has a context of its own, an invocation is told at most once, a callback and a send on the channel counted together, and the
  -- next step of the dispatch can be taken: no send on the channel of a caller blocks it.
  pub told-once :
      (w w' : ClientConnBolt E) (i : ℕ) (input : Dispatched E)
      → IsFresh w
      → ((j : ℕ) → (w.calls j).ctx.calls ≡ [])
      → Run w w'
      → (length (w'.calls i).ctx.calls ≤ 1)
        × ((w'' : ClientConnBolt E) × (dispatch_step input w' ≡ some w''))
  told-once w w' i input f z r =
      let h = Run-Fair w w' (fresh-Fair w f z) r in
      let (w'', q, k) = dispatch_at-Fair w'.dispatching input w' h refl in
      (omega (arith, h.once i), (w'', q))

  -- In any such run, the cleanup with an error leaves no entry, and tells the caller of every entry
  -- this error, the only thing that it was told.
  pub cleanup_pending_requests-tells :
      (w w' : ClientConnBolt E) (err : E) (r i : ℕ)
      → IsFresh w
      → ((j : ℕ) → (w.calls j).ctx.calls ≡ [])
      → Run w w'
      → find r w'.requests ≡ some i
      → ((cleanup_pending_requests err w').requests ≡ [])
        × (((cleanup_pending_requests err w').calls i).ctx.calls ≡ (some err, none) ∷ [])
  unfolding cleanup_pending_requests
  cleanup_pending_requests-tells w w' err r i f z run e =
      let h = Run-Fair w w' (fresh-Fair w f z) run in
      (
        refl,
        abort_calls-tells err w'.requests w'.calls w'.dispatching i h
            (omega (arith, count-find r i w'.requests e)),
      )
