-- ===== src/ClientConnBolt/Dispatch.antt =====
-- A dispatch keeps what holds of a client.
use sofa_bolt_go.Base.{
  ℕ, ◌≡◌, refl, sym, ◌∙◌, subst, false, Option, none, some, List, [], ◌∷◌, Bool-cases, Option-cases,
  inl, inr,
}
use sofa_bolt_go.Client.Table.{find, update}
use sofa_bolt_go.Client.{InvokeContext, abort, invoke_context, assign_response}
use sofa_bolt_go.Request.{Request}
use sofa_bolt_go.Response
use sofa_bolt_go.Response.{Response}
use sofa_bolt_go.Command
use sofa_bolt_go.Command.{Command, is_request, shallow_copy_to, zero_command}
use sofa_bolt_go.ClientConnBolt.{
  ClientConnBolt, Call, Stage, starting, numbering, adding, sending, removing, waiting, returned,
  sent, answered, failed, Dispatching, idle, delivering, abort_calls, cleanup_pending_requests,
  dispatch, dispatch_request, dispatch_response, deliver, Dispatched, command, broken, dispatch_at,
}
use sofa_bolt_go.ClientConnBolt.Invariant.{
  Staged, IsSound, Entries, Delivers, IsDistinct, numbers, IsConsistent, Entries-remove,
  find-Entries, update_all, same_numbers,
}
use sofa_bolt_go.ClientConnBolt.Preserve.{changed-IsConsistent}

module _ {E : Type 0} where
  abort_blocking :
      (total : ℕ) (err : E) (c : Call E) (vs : List (Option E))
      → c.ctx.callback ≡ false
      → c.ctx.err_ch ≡ vs
      → IsSound total c
      → IsSound total (record c { ctx = abort err c.ctx })
  unfolding abort
  abort_blocking total err c [] b e h =
      simp (b, e) (record { bounded = h.bounded; staged = h.staged; told = tt })
  abort_blocking total err c (v ∷ vs) b e h =
      simp (b, e) (record { bounded = h.bounded; staged = h.staged; told = h.told })

  abort-IsSound :
      (total : ℕ) (err : E) (c : Call E)
      → IsSound total c
      → IsSound total (record c { ctx = abort err c.ctx })
  unfolding abort
  abort-IsSound total err c h = elim (Bool-cases c.ctx.callback) [
    | inl calls_back ↦
        simp calls_back (record { bounded = h.bounded; staged = h.staged; told = h.told })
    | inr blocks ↦ abort_blocking total err c c.ctx.err_ch blocks refl h
  ]

  abort_calls-IsSound :
      (total : ℕ) (err : E) (xs : List (ℕ × ℕ)) (f : ℕ → Call E)
      → ((j : ℕ) → IsSound total (f j))
      → (j : ℕ) → IsSound total (abort_calls err xs f j)
  unfolding abort_calls
  abort_calls-IsSound total err [] f h = h
  abort_calls-IsSound total err ((r, i) ∷ xs) f h =
      abort_calls-IsSound total err xs (update f i (record (f i) { ctx = abort err (f i).ctx }))
        (update_all (λ _ c. IsSound total c) f i _ h (abort-IsSound total err (f i) (h i)))

  numbers-abort_calls :
      (err : E) (xs : List (ℕ × ℕ)) (f : ℕ → Call E) → numbers (abort_calls err xs f) ≡ numbers f
  unfolding abort_calls
  numbers-abort_calls err [] f = refl
  numbers-abort_calls err ((r, i) ∷ xs) f =
      numbers-abort_calls err xs (update f i (record (f i) { ctx = abort err (f i).ctx }))
      ∙ same_numbers f i (record (f i) { ctx = abort err (f i).ctx }) refl

  cleanup_pending_requests-IsConsistent :
      (err : E) (w : ClientConnBolt E)
      → IsConsistent w
      → IsConsistent (cleanup_pending_requests err w)
  unfolding cleanup_pending_requests
  cleanup_pending_requests-IsConsistent err w h =
      let same = sym (numbers-abort_calls err w.requests w.calls) in
      record {
        sound = abort_calls-IsSound w.increments err w.requests w.calls h.sound;
        distinct = subst IsDistinct same h.distinct;
        entries = tt;
        delivers = subst (λ n. Delivers n w.dispatching) same h.delivers;
      }

  -- A response that is delivered is for the number of the caller.
  restaged : (s : Stage E) (n : Option ℕ) (r r' : ℕ) → n ≡ some r' → Staged s n r → Staged s n r'
  restaged starting n r r' e at = at
  restaged numbering n r r' e at = at
  restaged (adding k) n r r' e at = at
  restaged (sending k) n r r' e at = at
  restaged (waiting k) n r r' e at = at
  restaged (removing k sent) n r r' e at = at
  restaged (removing k answered) n r r' e at = e
  restaged (removing k (failed x)) n r r' e at = at
  restaged (returned sent) n r r' e at = at
  restaged (returned answered) n r r' e at = e
  restaged (returned (failed x)) n r r' e at = at

  Invoked : ℕ → Call E → Option (InvokeContext E) → Type 0
  Invoked total c none = Unit
  Invoked total c (some ctx) = IsSound total (record c { ctx = ctx })

  Invoked-blocking :
      (total : ℕ) (res : Response) (c : Call E) (vs : List (Option E))
      → c.ctx.callback ≡ false
      → c.ctx.err_ch ≡ vs
      → IsSound total c
      → c.number ≡ some res.command.rid
      → Invoked total c (invoke_context none res c.ctx)
  unfolding Invoked invoke_context assign_response Response.copy_to Command.copy_to
  Invoked-blocking total res c [] b e h n =
      simp (b, e) (record { bounded = h.bounded; staged = h.staged; told = (n, tt) })
  Invoked-blocking total res c (v ∷ vs) b e h n = simp (b, e) tt

  invoke_context-IsSound :
      (total : ℕ) (res : Response) (c : Call E)
      → IsSound total c
      → c.number ≡ some res.command.rid
      → Invoked total c (invoke_context none res c.ctx)
  unfolding Invoked invoke_context
  invoke_context-IsSound total res c h n = elim (Bool-cases c.ctx.callback) [
    | inl calls_back ↦ simp calls_back (record {
      bounded = h.bounded;
      staged = restaged c.stage c.number c.ctx.res.command.rid res.command.rid n h.staged;
      told = h.told;
    })
    | inr blocks ↦ Invoked-blocking total res c c.ctx.err_ch blocks refl h n
  ]

  taken :
      (w : ClientConnBolt E) (xs : List (ℕ × ℕ)) (d : Dispatching)
      → IsConsistent w
      → Entries (numbers w.calls) xs
      → Delivers (numbers w.calls) d
      → IsConsistent (record w { requests = xs; dispatching = d })
  taken w xs d h entries delivers = record {
    sound = h.sound;
    distinct = h.distinct;
    entries = entries;
    delivers = delivers;
  }

  response_found :
      (w : ClientConnBolt E) (cmd : Command)
      → IsConsistent w
      → IsConsistent (dispatch_response (record { command = cmd; tbconn = none }) w)
  unfolding dispatch_response Response.get_request_id
  response_found w cmd h = elim (Option-cases (find cmd.rid w.requests)) [
    | inl lost ↦
        rw lost
          (taken w _ _ h (Entries-remove (numbers w.calls) cmd.rid w.requests h.entries) h.delivers)
    | inr (i, here) ↦ rw here (
        taken w _ _ h (Entries-remove (numbers w.calls) cmd.rid w.requests h.entries)
          (find-Entries (numbers w.calls) cmd.rid i w.requests h.entries here))
  ]

  request_served :
      (w : ClientConnBolt E) (req : Request)
      → IsConsistent w
      → IsConsistent (dispatch_request req w)
  unfolding dispatch_request
  request_served w req h = elim (Bool-cases w.has_handler) [
    | inl has ↦ simp has (record {
      sound = h.sound;
      distinct = h.distinct;
      entries = h.entries;
      delivers = h.delivers;
    })
    | inr lacks ↦ simp lacks h
  ]

  dispatch-IsConsistent :
      (input : Dispatched E) (w : ClientConnBolt E)
      → IsConsistent w
      → IsConsistent (dispatch input w)
  unfolding dispatch
  dispatch-IsConsistent (broken err) w h = cleanup_pending_requests-IsConsistent err w h
  dispatch-IsConsistent (command cmd) w h = elim (Bool-cases (is_request cmd)) [
    | inl request ↦ rw request (request_served w _ h)
    | inr response ↦ rw response (response_found w (shallow_copy_to cmd zero_command) h)
  ]

  pub deliver-none :
      (i : ℕ) (res : Response) (w : ClientConnBolt E)
      → invoke_context none res (w.calls i).ctx ≡ none
      → deliver i res w ≡ none
  unfolding deliver
  deliver-none i res w e = rw e refl

  pub deliver-some :
      (i : ℕ) (res : Response) (w : ClientConnBolt E) (ctx : InvokeContext E)
      → invoke_context none res (w.calls i).ctx ≡ some ctx
      → deliver i res w
        ≡ some (record w {
          calls = update w.calls i (record (w.calls i) { ctx = ctx });
          dispatching = idle;
        })
  unfolding deliver
  deliver-some i res w ctx e = rw e refl

  delivered :
      (i : ℕ) (res : Response) (w w' : ClientConnBolt E) (ctx : Option (InvokeContext E))
      → IsConsistent w
      → invoke_context none res (w.calls i).ctx ≡ ctx
      → Invoked w.increments (w.calls i) ctx
      → deliver i res w ≡ some w'
      → IsConsistent w'
  unfolding Invoked
  delivered i res w w' none h e s d = absurd (cc (sym (deliver-none i res w e) ∙ d))
  delivered i res w w' (some ctx) h e s d =
      subst IsConsistent (cc (sym (deliver-some i res w ctx e) ∙ d)) (
        changed-IsConsistent w i (record (w.calls i) { ctx = ctx }) w.requests idle h refl s
          h.entries tt)

  pub dispatch_at-IsConsistent :
      (d : Dispatching) (input : Dispatched E) (w w' : ClientConnBolt E)
      → IsConsistent w
      → Delivers (numbers w.calls) d
      → dispatch_at d input w ≡ some w'
      → IsConsistent w'
  unfolding dispatch_at
  dispatch_at-IsConsistent idle input w w' h at e =
      subst IsConsistent (cc e) (dispatch-IsConsistent input w h)
  dispatch_at-IsConsistent (delivering i res) input w w' h at e =
      delivered i res w w' _ h refl
        (invoke_context-IsSound w.increments res (w.calls i) (h.sound i) at) e
