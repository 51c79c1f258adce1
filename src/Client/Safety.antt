-- ===== src/Client/Safety.antt =====
-- What holds of every run of a client: an invocation is told at most once, with its own response,
-- and the read loop never waits for a caller.
use sofa_bolt_go.Base.{
  ℕ, ◌≤◌, ◌≡◌, refl, ◌∙◌, sym, ap, true, false, not, ◌&&◌, Option, none, some, List, [], ◌∷◌, ◌==◌,
  if◌then◌else◌, arith, Bool-cases, inl, inr, Bytes, length,
}
use sofa_bolt_go.ReadHelper.{ReadHelper}
use sofa_bolt_go.Command.{Command, is_request}
use sofa_bolt_go.Request
use sofa_bolt_go.Response
use sofa_bolt_go.Response.{Response}
use sofa_bolt_go.Client.Table.{find, update}
use sofa_bolt_go.Client.{
  Client, InvokeContext, starting, Reader, reading, delivering, closing, storing, stopped, abort,
  abort_all, returned, answered, Input, got, broken, doread, cleanup, handle, handle_request,
  handle_response, deliver,
}
use sofa_bolt_go.Client.Invoke.{Step, caller, loop, close, Run, done, later}
use sofa_bolt_go.Client.Invariant.{
  IsPending, History, NotTarget, Entries, Held, Consistent, IsConsistent, request_id,
}
use sofa_bolt_go.Client.Entries.{Absent-NotTarget, Entries-update}
use sofa_bolt_go.Client.Preserve.{del, hold, tell, invoke_context-IsSane, abort_all-IsSane}
use sofa_bolt_go.Client.Steps.{invoke_at}

flip_id : (i j : ℕ) → (i == j) ≡ false → (j == i) ≡ false
flip_id i j h = ground arith

self_id : (i : ℕ) → (i == i) ≡ true
self_id i = ground arith

module _ {E : Type 0} where
  -- A client before anything happened: nothing is pending, and no caller has begun.
  pub record IsFresh (w : Client E) : Type 0 where
    pub requests : w.requests ≡ []
    pub reader : w.reader ≡ reading
    pub phase : (i : ℕ) → (w.contexts i).phase ≡ starting
    pub calls : (i : ℕ) → (w.contexts i).calls ≡ []
    pub err_ch : (i : ℕ) → (w.contexts i).err_ch ≡ []

  pub IsFresh-IsConsistent : (w : Client E) → IsFresh w → IsConsistent w
  IsFresh-IsConsistent w fresh = record {
    contexts = λ i. record {
      early = λ u. (fresh.calls i, fresh.err_ch i);
      history = rw (fresh.calls i, fresh.err_ch i) tt;
      phase = rw (fresh.phase i) tt;
    };
    requests = rw fresh.requests tt;
    held = rw fresh.reader tt;
  }

  handle_response-IsConsistent :
      (w : Client E) (cmd : Command) (o : Option ℕ)
      → IsConsistent w
      → w.reader ≡ reading
      → find cmd.rid w.requests ≡ o
      → IsConsistent (handle_response (record { command = cmd; tbconn = none }) w)
  unfolding handle_response Response.get_request_id
  handle_response-IsConsistent w cmd none h r q =
      simp q (del w.contexts w.requests w.reader cmd.rid h)
  handle_response-IsConsistent w cmd (some i) h r q =
      simp q (hold w.contexts w.requests w.reader i (record { command = cmd; tbconn = none }) h q)

  handle-IsConsistent :
      (w : Client E) (cmd : Command)
      → IsConsistent w
      → w.reader ≡ reading
      → IsConsistent (handle cmd w)
  unfolding handle handle_request
  handle-IsConsistent w cmd h r = elim (Bool-cases (is_request cmd)) [
    | inl request ↦
        rw request (elim (Bool-cases w.has_handler) [ inl on ↦ simp on h | inr off ↦ simp off h ])
    | inr response ↦
        rw response (handle_response-IsConsistent w cmd (find cmd.rid w.requests) h r refl)
  ]

  cleaned :
      (w : Client E) (err : E) (reader : Reader E)
      → IsConsistent w
      → Held (abort_all err w.requests w.contexts) [] reader
      → Consistent (abort_all err w.requests w.contexts) [] reader
  cleaned w err reader h held = record {
    contexts = abort_all-IsSane err w.requests w.contexts h.requests h.contexts;
    requests = tt;
    held = held;
  }

  doread_at :
      (w : Client E) (input : Input E) (r : Reader E)
      → IsConsistent w
      → w.reader ≡ r
      → (w' : Client E) × (doread input w ≡ some w') × IsConsistent w'
  unfolding doread deliver cleanup
  doread_at w (got cmd) reading h e = simp e (_, refl, handle-IsConsistent w cmd h e)
  doread_at w (broken err redialed) reading h e = elim (Bool-cases (redialed && not w.closed)) [
    | inl again ↦ simp (e, again) (_, refl, cleaned w err reading h tt)
    | inr over ↦ simp (e, over) (_, refl, cleaned w err (closing err) h tt)
  ]
  doread_at w input (delivering i res) h e =
      let held : NotTarget i w.requests × IsPending (w.contexts i) res.command.rid =
        rw e at h.held in
      let (c, told, s) = invoke_context-IsSane (w.contexts i) res held.1 (h.contexts i) in
      simp (e, told)
        (
          _,
          refl,
          tell w.contexts w.requests i res c
              (record { contexts = h.contexts; requests = h.requests; held = held }) s,
        )
  doread_at w input (closing err) h e =
      simp e (_, refl, record { contexts = h.contexts; requests = h.requests; held = tt })
  doread_at w input (storing err) h e =
      simp e (_, refl, record { contexts = h.contexts; requests = h.requests; held = tt })
  doread_at w input stopped h e = simp e (_, refl, h)

  -- In a consistent client the read loop never blocks, and stays consistent.
  pub doread-IsConsistent :
      (w : Client E) (input : Input E)
      → IsConsistent w
      → (w' : Client E) × (doread input w ≡ some w') × IsConsistent w'
  doread-IsConsistent w input h = doread_at w input w.reader h refl

  abort-calls :
      (c : InvokeContext E) (r : ℕ) (err : E)
      → IsPending c r
      → (abort err c).calls ≡ (some err, none) ∷ []
  unfolding abort
  abort-calls c r err p = elim (Bool-cases c.callback) [
    | inl on ↦ rw (on, p.untold) refl
    | inr off ↦ rw (off, p.silent, p.untold) refl
  ]

  -- The contexts that no entry leads to are left alone.
  abort_all-NotTarget :
      (err : E) (xs : List (ℕ × ℕ)) (f : ℕ → InvokeContext E) (i : ℕ)
      → NotTarget i xs
      → abort_all err xs f i ≡ f i
  abort_all-NotTarget err [] f i n = refl
  abort_all-NotTarget err ((r, j) ∷ xs) f i (m, n) =
      abort_all-NotTarget err xs (update f j (abort err (f j))) i n ∙ rw (flip_id i j m) refl

  abort_all-calls :
      (err : E) (xs : List (ℕ × ℕ)) (f : ℕ → InvokeContext E) (r i : ℕ)
      → Entries f xs
      → find r xs ≡ some i
      → (abort_all err xs f i).calls ≡ (some err, none) ∷ []
  abort_all-calls err [] f r i e h = absurd (cc h)
  abort_all-calls err ((k, j) ∷ xs) f r i (p, a, e) h =
      let g = update f j (abort err (f j)) in
      let away : NotTarget j xs = Absent-NotTarget f k j xs e p.key a in
      elim (Bool-cases (k == r)) [
        | inl same ↦
            let found : some j ≡ some i =
              sym (ap (λ b. if b then some j else find r xs) same) ∙ h in
            let here : i ≡ j = cc found in
            rw (here, abort_all-NotTarget err xs g j away, self_id j) (abort-calls (f j) k err p)
        | inr other ↦
            abort_all-calls err xs g r i (Entries-update f j (abort err (f j)) xs away e)
              (sym (ap (λ b. if b then some j else find r xs) other) ∙ h)
      ]

  take_once :
      (rid : ℕ) (ires : Response) (calls : List (Option E × Option Response)) (vs : List (Option E))
      → History rid ires calls vs
      → length calls ≤ 1
  take_once rid ires [] vs h = omega arith
  take_once rid ires (call ∷ []) vs h = omega arith
  take_once rid ires (call ∷ call' ∷ calls) vs h = absurd h

module _ (rh : ReadHelper) {E : Type 0} (encode : Option ℕ → Option E × Bytes) where
  pub Step-IsConsistent : (w w' : Client E) → IsConsistent w → Step rh encode w w' → IsConsistent w'
  Step-IsConsistent w _ h (caller choice i) =
      invoke_at rh encode w choice i (w.contexts i).phase h refl
  Step-IsConsistent w _ h (loop input w' q) =
      let (v, q', k) = doread-IsConsistent w input h in let same : w' ≡ v = cc (q, q') in rw same k
  Step-IsConsistent w _ h close = record {
    contexts = h.contexts;
    requests = h.requests;
    held = h.held;
  }

  Run-IsConsistent : (w w' : Client E) → IsConsistent w → Run rh encode w w' → IsConsistent w'
  Run-IsConsistent w _ h done = h
  Run-IsConsistent w _ h (later w' w'' run step) =
      Step-IsConsistent w' w'' (Run-IsConsistent w w' h run) step

  -- In every run from a fresh client, an invocation is told at most once: one call of its callback,
  -- or one send on its channel, by a response or by the end of the read loop.
  pub calls-once :
      (w w' : Client E) (i : ℕ) → IsFresh w → Run rh encode w w' → length (w'.contexts i).calls ≤ 1
  calls-once w w' i fresh run =
      let h = Run-IsConsistent w w' (IsFresh-IsConsistent w fresh) run in
      let c = w'.contexts i in
      take_once (request_id c) c.ires c.calls c.err_ch (h.contexts i).history

  -- In every run from a fresh client, a caller that returns with an answer holds a response with the
  -- id of its own request, whatever the order of the responses, the timeouts and the other callers,
  -- and whether the ids are counted by the client or chosen by the callers.
  pub answered-request_id :
      (w w' : Client E) (i : ℕ)
      → IsFresh w
      → Run rh encode w w'
      → (w'.contexts i).phase ≡ returned answered
      → (w'.contexts i).res.command.rid ≡ Request.get_request_id (w'.contexts i).req
  answered-request_id w w' i fresh run e =
      rw e at ((Run-IsConsistent w w' (IsFresh-IsConsistent w fresh) run).contexts i).phase

  -- In every run from a fresh client, the read loop can take its next step: no send on the channel of
  -- a caller blocks it, even of one that has timed out or never looks.
  pub doread-progress :
      (w w' : Client E) (input : Input E)
      → IsFresh w
      → Run rh encode w w'
      → (w'' : Client E) × (doread input w' ≡ some w'')
  doread-progress w w' input fresh run =
      let h = Run-IsConsistent w w' (IsFresh-IsConsistent w fresh) run in
      let (w'', moved, k) = doread-IsConsistent w' input h in (w'', moved)

  -- In every run from a fresh client, the end of the read loop leaves nothing pending, and tells
  -- an invocation that is pending the error of the read, for the first and only time.
  pub cleanup-tells :
      (w w' : Client E) (err : E) (r i : ℕ)
      → IsFresh w
      → Run rh encode w w'
      → find r w'.requests ≡ some i
      → ((cleanup err w').requests ≡ [])
        × (((cleanup err w').contexts i).calls ≡ (some err, none) ∷ [])
  unfolding cleanup
  cleanup-tells w w' err r i fresh run found =
      let h = Run-IsConsistent w w' (IsFresh-IsConsistent w fresh) run in
      (refl, abort_all-calls err w'.requests w'.contexts r i h.requests found)
