-- ===== src/Client/Pooled.antt =====
-- sofabolt/syncpool.go and client.go: `DoTimeout` takes its context from a pool, and puts it back
-- unless it timed out. A context in the pool is one whose caller has returned.
use sofa_bolt_go.Base.{
  ℕ, ◌≡◌, refl, sym, ap, subst, ◌∙◌, Bool, true, false, Option, none, some, List, [], ◌==◌,
  Bool-cases, Option-cases, inl, inr, Bytes,
}
use sofa_bolt_go.ReadHelper.{ReadHelper}
use sofa_bolt_go.Command.{Command, is_request}
use sofa_bolt_go.Request
use sofa_bolt_go.Request.{Request}
use sofa_bolt_go.Response
use sofa_bolt_go.Response.{Response}
use sofa_bolt_go.Client.Table.{find, update}
use sofa_bolt_go.Client.{
  Client, InvokeContext, starting, returned, sent, answered, failed, timed_out, was_closed,
  not_a_request, malformed, io, put, Result, Reader, reading, delivering, closing, storing, stopped,
  Input, got, broken, doread, cleanup, handle, handle_request, handle_response, deliver,
  invoke_context, abort_all,
}
use sofa_bolt_go.Client.Invoke.{Step, caller, loop, close}
use sofa_bolt_go.Client.Invariant.{NotTarget, Held, IsConsistent, request_id}
use sofa_bolt_go.Client.Entries.{Entries-update}
use sofa_bolt_go.Client.Safety.{IsFresh, IsFresh-IsConsistent, Step-IsConsistent}
use sofa_bolt_go.Client.Settled.{
  is_returned, Keyed, IsSettled, IsSettled-update, IsSettled-remove, Same, Same-invoke_context,
  Same-abort_all,
}
use sofa_bolt_go.Client.Returning.{Settled, invoke-Settled}

module _ {E : Type 0} where
  -- `ReleaseInvokeContext` is called unless `invoke` returned `ErrClientTimeout`.
  abbrev pub is_released : Result E → Bool
  is_released sent = true
  is_released answered = true
  is_released (failed timed_out) = false
  is_released (failed was_closed) = true
  is_released (failed not_a_request) = true
  is_released (failed (malformed m)) = true
  is_released (failed (io e)) = true

  -- `AcquireInvokeContext`, for a context of the pool: a channel that holds an error is replaced. The
  -- history of the context starts again.
  unfoldable pub acquire : Request → Response → Bool → InvokeContext E → InvokeContext E
  acquire req res has_timeout c = record c {
    req = req;
    res = res;
    err_ch = [];
    has_timeout = has_timeout;
    phase = starting;
    calls = [];
  }

  -- The read loop is not about to tell the context.
  abbrev pub IsFree : ℕ → Reader E → Type 0
  IsFree i reading = Unit
  IsFree i (delivering j res) = (i == j) ≡ false
  IsFree i (closing e) = Unit
  IsFree i (storing e) = Unit
  IsFree i stopped = Unit

module _ (rh : ReadHelper) {E : Type 0} (encode : Option ℕ → Option E × Bytes) where
  -- The steps of a client, and the start of another call with a context that was released.
  pub data PooledRun (w : Client E) : Client E → Type 0 where
    fresh : PooledRun w w
    step : (w' w'' : Client E) → PooledRun w w' → Step rh encode w' w'' → PooledRun w w''
    reuse :
        (w' : Client E) (i : ℕ) (result : Result E) (req : Request) (res : Response)
        (has_timeout : Bool)
        → PooledRun w w'
        → (w'.contexts i).callback ≡ false
        → (w'.contexts i).phase ≡ returned result
        → is_released result ≡ true
        → PooledRun w (put i (acquire req res has_timeout (w'.contexts i)) w')

  -- Whenever a context was used again, the read loop was not about to tell it.
  unfoldable pub IsUndisturbed : (w w' : Client E) → PooledRun w w' → Type 0
  IsUndisturbed w _ fresh = Unit
  IsUndisturbed w _ (step w' w'' run s) = IsUndisturbed w w' run
  IsUndisturbed w _ (reuse w' i result req res t run b p r) =
      IsFree i w'.reader × IsUndisturbed w w' run

  Held-update :
      (f : ℕ → InvokeContext E) (xs : List (ℕ × ℕ)) (i : ℕ) (c : InvokeContext E)
      (reader : Reader E)
      → IsFree i reader
      → Held f xs reader
      → Held (update f i c) xs reader
  Held-update f xs i c reading away h = tt
  Held-update f xs i c (delivering j res) away h = (h.0, rw away h.1)
  Held-update f xs i c (closing e) away h = tt
  Held-update f xs i c (storing e) away h = tt
  Held-update f xs i c stopped away h = tt

  acquired-IsConsistent :
      (w : Client E) (i : ℕ) (req : Request) (res : Response) (t : Bool)
      → IsConsistent w
      → NotTarget i w.requests
      → IsFree i w.reader
      → IsConsistent (put i (acquire req res t (w.contexts i)) w)
  unfolding acquire
  acquired-IsConsistent w i req res t h n away = record {
    contexts = λ j. elim (Bool-cases (i == j)) [
      | inl same ↦ rw same (record { early = λ u. (refl, refl); history = tt; phase = tt })
      | inr other ↦ rw other (h.contexts j)
    ];
    requests =
        Entries-update w.contexts i (acquire req res t (w.contexts i)) w.requests n h.requests;
    held =
        Held-update w.contexts w.requests i (acquire req res t (w.contexts i)) w.reader away h.held;
  }

  acquired-Settled :
      (w : Client E) (i : ℕ) (req : Request) (res : Response) (t : Bool)
      → Settled w
      → Settled (put i (acquire req res t (w.contexts i)) w)
  unfolding acquire
  acquired-Settled w i req res t h =
      IsSettled-update w.contexts w.requests w.requests i _ h tt (λ b r. cc) (λ j other n. n)

  response-Settled :
      (w : Client E) (cmd : Command)
      → Settled w
      → Settled (handle_response (record { command = cmd; tbconn = none }) w)
  unfolding handle_response Response.get_request_id
  response-Settled w cmd h = elim (Option-cases (find cmd.rid w.requests)) [
    | inl lost ↦ simp lost (IsSettled-remove w.contexts cmd.rid w.requests h)
    | inr (i, here) ↦ simp here (IsSettled-remove w.contexts cmd.rid w.requests h)
  ]

  handle-Settled : (w : Client E) (cmd : Command) → Settled w → Settled (handle cmd w)
  unfolding handle handle_request
  handle-Settled w cmd h = elim (Bool-cases (is_request cmd)) [
    | inl request ↦
        rw request (elim (Bool-cases w.has_handler) [ inl on ↦ simp on h | inr off ↦ simp off h ])
    | inr response ↦ rw response (response-Settled w cmd h)
  ]

  Keyed-Same :
      (c d : InvokeContext E)
      → Same c d
      → Keyed (request_id c) c.phase
      → Keyed (request_id d) d.phase
  Keyed-Same c d s k =
      subst (λ p. Keyed (request_id d) p) (sym s.phase)
        (subst (λ r. Keyed (Request.get_request_id r) c.phase) (sym s.req) k)

  aborted-Settled :
      (w : Client E) (err : E) → Settled w → IsSettled (abort_all err w.requests w.contexts) []
  aborted-Settled w err h = record {
    keyed =
        λ i. Keyed-Same (w.contexts i) _ (Same-abort_all err w.requests w.contexts i) (h.keyed i);
    gone = λ i b r. tt;
  }

  from_some : (v v' : Client E) → some v ≡ some v' → Settled v → Settled v'
  from_some v v' e h = let q : v ≡ v' = cc e in subst Settled q h

  deliver-Settled :
      (w w' : Client E) (i : ℕ) (res : Response)
      → Settled w
      → deliver i res w ≡ some w'
      → Settled w'
  unfolding deliver
  deliver-Settled w w' i res h e = elim (Option-cases (invoke_context none res (w.contexts i))) [
    | inl blocked ↦ absurd (cc (simp blocked at e))
    | inr (c, told) ↦
        let s = Same-invoke_context none res (w.contexts i) c told in
        from_some _ w' (simp told at e) (
          IsSettled-update w.contexts w.requests w.requests i c h
            (Keyed-Same (w.contexts i) c s (h.keyed i))
            (λ b r. h.gone i (sym s.callback ∙ b) (ap is_returned (sym s.phase) ∙ r))
            (λ j other n. n))
  ]

  doread-Settled :
      (w w' : Client E) (input : Input E) (r : Reader E)
      → Settled w
      → w.reader ≡ r
      → doread input w ≡ some w'
      → Settled w'
  unfolding doread cleanup
  doread-Settled w w' (got cmd) reading h q e =
      from_some _ w' (simp q at e) (handle-Settled w cmd h)
  doread-Settled w w' (broken err redialed) reading h q e =
      from_some _ w' (simp q at e) (aborted-Settled w err h)
  doread-Settled w w' input (delivering i res) h q e = deliver-Settled w w' i res h (simp q at e)
  doread-Settled w w' input (closing err) h q e = from_some _ w' (simp q at e) h
  doread-Settled w w' input (storing err) h q e = from_some _ w' (simp q at e) h
  doread-Settled w w' input stopped h q e = from_some _ w' (simp q at e) h

  Step-Settled : (w w' : Client E) → IsConsistent w → Settled w → Step rh encode w w' → Settled w'
  Step-Settled w _ s h (caller choice i) =
      invoke-Settled rh encode w choice i (w.contexts i).phase s h refl
  Step-Settled w _ s h (loop input w' q) = doread-Settled w w' input w.reader h refl q
  Step-Settled w _ s h close = record { keyed = h.keyed; gone = h.gone }

  fresh-Settled : (w : Client E) → IsFresh w → Settled w
  fresh-Settled w f = record { keyed = λ i. rw (f.phase i) tt; gone = λ i b r. rw f.requests tt }

  PooledRun-IsConsistent :
      (w w' : Client E) (run : PooledRun w w')
      → IsFresh w
      → IsUndisturbed w w' run
      → IsConsistent w' × Settled w'
  unfolding IsUndisturbed
  PooledRun-IsConsistent w _ fresh f u = (IsFresh-IsConsistent w f, fresh-Settled w f)
  PooledRun-IsConsistent w _ (step w' w'' run s) f u =
      let h = PooledRun-IsConsistent w w' run f u in
      (Step-IsConsistent rh encode w' w'' h.0 s, Step-Settled w' w'' h.0 h.1 s)
  PooledRun-IsConsistent w _ (reuse w' i result req res t run b p r) f (away, u) =
      let h = PooledRun-IsConsistent w w' run f u in
      (
        acquired-IsConsistent w' i req res t h.0 (h.1.gone i b (rw p refl)) away,
        acquired-Settled w' i req res t h.1,
      )

  -- In every run from a fresh client in which contexts that were released are used again, each at a
  -- time at which the read loop was not about to tell it: a caller that returns with an answer holds
  -- a response with the id of its own request.
  pub pooled-request_id :
      (w w' : Client E) (i : ℕ) (run : PooledRun w w')
      → IsFresh w
      → IsUndisturbed w w' run
      → (w'.contexts i).phase ≡ returned answered
      → (w'.contexts i).res.command.rid ≡ Request.get_request_id (w'.contexts i).req
  pooled-request_id w w' i run f u e =
      rw e at ((PooledRun-IsConsistent w w' run f u).0.contexts i).phase
