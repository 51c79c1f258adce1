-- ===== src/ClientConnBolt.antt =====
-- sofabolt/protocol/bolt/clientx_bolt.go: a client over a ClientConn, whose 64-bit counter numbers
-- the requests. Every function here is what runs between two accesses to shared state. In a Run each call
-- has a context of its own, as `DoCallback` makes one; Pooled has the contexts that `DoTimeout` takes from
-- a pool.
pub mod Invariant
pub mod Preserve
pub mod Steps
pub mod Dispatch
pub mod Safety
pub mod Credit
pub mod Once
pub mod Told
pub mod Settled
pub mod Returning
pub mod Pooled
use sofa_bolt_go.Base.{
  ℕ, ◌+◌, ◌%◌, ◌^◌, ◌≡◌, Bool, true, false, ◌&&◌, Option, none, some, List, [], ◌∷◌, u32_max, ltb,
  ◌==◌, if◌then◌else◌,
}
use sofa_bolt_go.Command.{
  Command, zero_command, is_request, shallow_copy_to, type_bolt_request_one_way,
}
use sofa_bolt_go.Request
use sofa_bolt_go.Request.{Request}
use sofa_bolt_go.Response
use sofa_bolt_go.Response.{Response}
use sofa_bolt_go.Client.{InvokeContext, abort, invoke_context}
use sofa_bolt_go.Client.Table.{remove, insert, get_and_del, update}

-- The errors of `invoke`; `io` is one of the encoder or of the connection.
pub data InvokeError (E : Type 0) : Type 0 where
  was_closed id_overflow timed_out : InvokeError E
  io : E → InvokeError E

-- What `invoke` returns: nil at once, nil with a response, or an error.
pub data Returned (E : Type 0) : Type 0 where
  sent answered : Returned E
  failed : InvokeError E → Returned E

-- Where a caller stands in `invoke`: before the test of `Closed`, `IncrementID`,
-- `addRequestContext`, `Send`, `delRequestContext`, in the `select`, and behind.
pub data Stage (E : Type 0) : Type 0 where
  starting numbering : Stage E
  adding sending waiting : ℕ → Stage E
  removing : ℕ → Returned E → Stage E
  returned : Returned E → Stage E

-- A caller with its context, whose phase in the other client is not used here. `number` is not in
-- the source: it is the id that `invoke` gave to the request.
pub record Call (E : Type 0) : Type 0 where
  pub stage : Stage E
  pub ctx : InvokeContext E
  pub number : Option ℕ

-- Where a dispatch stands: there is none, or it is before `Invoke` of a context that is out of the
-- table.
pub data Dispatching : Type 0 where
  idle : Dispatching
  delivering : ℕ → Response → Dispatching

-- `increments` counts the calls of `IncrementID`. `served` lists the requests for the handler.
pub record ClientConnBolt (E : Type 0) : Type 0 where
  pub requests : List (ℕ × ℕ)
  pub has_handler : Bool
  pub increments : ℕ
  pub closed : Bool
  pub calls : ℕ → Call E
  pub dispatching : Dispatching
  pub served : List Request

-- What `Dispatch` is given.
pub data Dispatched (E : Type 0) : Type 0 where
  command : Command → Dispatched E
  broken : E → Dispatched E

-- How the world answers a caller: the error of `Send`, and whether its timer has fired.
pub record Choice (E : Type 0) : Type 0 where
  pub send_error : Option E
  pub timer_fired : Bool

module _ {E : Type 0} where
  abbrev pub put : ℕ → Call E → ClientConnBolt E → ClientConnBolt E
  put i c w = record w { calls = update w.calls i c }

  abbrev pub goto : Stage E → Call E → Call E
  goto s c = record c { stage = s }

  -- `x.IncrementID()`, a uint64.
  abbrev pub incremented : ClientConnBolt E → ℕ
  incremented w = (w.increments + 1) % 2 ^ 64

  -- From `IncrementID` to the numbered request.
  unfoldable pub number_call : ℕ → Call E → Call E
  number_call id c = if ltb u32_max id then goto (returned (failed id_overflow)) c else record c {
    stage = adding id;
    ctx = record (c.ctx) { req = Request.set_request_id id c.ctx.req };
    number = some id;
  }

  -- Behind `Send`: a one-way request is done, and so is one with a callback, whose channel is nil.
  unfoldable pub after_send : ℕ → Option E → Call E → Stage E
  after_send r (some e) c = removing r (failed (io e))
  after_send r none c =
      if c.ctx.req.command.typ == type_bolt_request_one_way
      then removing r sent
      else if c.ctx.callback
      then returned sent
      else waiting r

  -- What the channel holds, and nothing while it is empty.
  unfoldable pub receive : List (Option E) → Call E → Call E
  receive [] c = c
  receive (some e ∷ vs) c = record c {
    stage = returned (failed (io e));
    ctx = record (c.ctx) { err_ch = vs };
  }
  receive (none ∷ vs) c = record c {
    stage = returned answered;
    ctx = record (c.ctx) { err_ch = vs; res = Response.copy_to c.ctx.ires c.ctx.res };
  }

  -- The `select`.
  unfoldable pub select : ℕ → Bool → Call E → Call E
  select r fired c =
      if c.ctx.has_timeout && fired
      then goto (removing r (failed timed_out)) c
      else receive c.ctx.err_ch c

  -- A step of `invoke` at a stage.
  unfoldable pub invoke_at : Choice E → ℕ → Stage E → ClientConnBolt E → ClientConnBolt E
  invoke_at choice i starting w =
      put i (goto (if w.closed then returned (failed was_closed) else numbering) (w.calls i)) w
  invoke_at choice i numbering w = record w {
    calls = update w.calls i (number_call (incremented w) (w.calls i));
    increments = w.increments + 1;
  }
  invoke_at choice i (adding r) w = record (put i (goto (sending r) (w.calls i)) w) {
    requests = insert r i w.requests;
  }
  invoke_at choice i (sending r) w =
      put i (goto (after_send r choice.send_error (w.calls i)) (w.calls i)) w
  invoke_at choice i (removing r result) w = record (put i (goto (returned result) (w.calls i)) w) {
    requests = remove r w.requests;
  }
  invoke_at choice i (waiting r) w = put i (select r choice.timer_fired (w.calls i)) w
  invoke_at choice i (returned result) w = w

  abbrev pub invoke : Choice E → ℕ → ClientConnBolt E → ClientConnBolt E
  invoke choice i w = invoke_at choice i (w.calls i).stage w

  -- `cleanupPendingRequests` over the table.
  unfoldable pub abort_calls : E → List (ℕ × ℕ) → (ℕ → Call E) → ℕ → Call E
  abort_calls err [] f = f
  abort_calls err ((r, i) ∷ xs) f =
      abort_calls err xs (update f i (record (f i) { ctx = abort err (f i).ctx }))

  unfoldable pub cleanup_pending_requests : E → ClientConnBolt E → ClientConnBolt E
  cleanup_pending_requests err w = record w {
    requests = [];
    calls = abort_calls err w.requests w.calls;
  }

  -- `dispatchRequest` up to the handler.
  unfoldable pub dispatch_request : Request → ClientConnBolt E → ClientConnBolt E
  dispatch_request req w = if w.has_handler then record w { served = req ∷ w.served } else w

  -- `dispatchResponse` up to `Invoke`.
  unfoldable pub dispatch_response : Response → ClientConnBolt E → ClientConnBolt E
  dispatch_response res w = go (get_and_del (Response.get_request_id res) w.requests)
    where
      go : Option ℕ × List (ℕ × ℕ) → ClientConnBolt E
      go (none, xs) = record w { requests = xs }
      go (some i, xs) = record w { requests = xs; dispatching = delivering i res }

  -- `Dispatch`: the command is copied into a new request or response by `ShallowCopyCommand`.
  unfoldable pub dispatch : Dispatched E → ClientConnBolt E → ClientConnBolt E
  dispatch (broken err) w = cleanup_pending_requests err w
  dispatch (command cmd) w =
      if is_request cmd
      then dispatch_request (record { command = shallow_copy_to cmd zero_command; tbconn = none }) w
      else dispatch_response (record { command = shallow_copy_to cmd zero_command; tbconn = none })
          w

  -- `ictx.Invoke(nil, res)`: none where it blocks.
  unfoldable pub deliver : ℕ → Response → ClientConnBolt E → Option (ClientConnBolt E)
  deliver i res w = go (invoke_context none res (w.calls i).ctx)
    where
      go : Option (InvokeContext E) → Option (ClientConnBolt E)
      go none = none
      go (some ctx) =
          some (record (put i (record (w.calls i) { ctx = ctx }) w) { dispatching = idle })

  -- A step of the dispatching loop: none where it blocks.
  unfoldable pub dispatch_at :
      Dispatching → Dispatched E → ClientConnBolt E → Option (ClientConnBolt E)
  dispatch_at idle input w = some (dispatch input w)
  dispatch_at (delivering i res) input w = deliver i res w

  abbrev pub dispatch_step : Dispatched E → ClientConnBolt E → Option (ClientConnBolt E)
  dispatch_step input w = dispatch_at w.dispatching input w

  -- A caller moves, the connection dispatches, or a user closes it.
  pub data Step (w : ClientConnBolt E) : ClientConnBolt E → Type 0 where
    caller : (choice : Choice E) (i : ℕ) → Step w (invoke choice i w)
    loop :
        (input : Dispatched E) (w' : ClientConnBolt E) → dispatch_step input w ≡ some w' → Step w w'
    close : Step w (record w { closed = true })

  -- Any number of steps, the last one outermost.
  pub data Run (w : ClientConnBolt E) : ClientConnBolt E → Type 0 where
    done : Run w w
    later : (w' w'' : ClientConnBolt E) → Run w w' → Step w' w'' → Run w w''
