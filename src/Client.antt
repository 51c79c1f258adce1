-- ===== src/Client.antt =====
-- sofabolt/client.go and invoke_context.go: invocations, the read loop, and the table of pending
-- requests they share. Every function here is what runs between two accesses to shared state.
pub mod Table
pub mod Invoke
pub mod Invariant
pub mod Entries
pub mod Preserve
pub mod Steps
pub mod Safety
pub mod Heartbeat
pub mod Settled
pub mod Returning
pub mod Pooled
use sofa_bolt_go.Base.{
  ℕ, ◌+◌, ◌%◌, ◌≡◌, Bool, true, false, not, ◌&&◌, Option, none, some, List, [], ◌∷◌, ◌++◌, Bytes,
  ◌==◌, if◌then◌else◌,
}
use sofa_bolt_go.ReadHelper.{ReadHelper}
use sofa_bolt_go.Command.{Command, is_request, is_bolt_request, type_bolt_request_one_way}
use sofa_bolt_go.Command.Write.{Written, written, malformed_proto, malformed_type}
use sofa_bolt_go.Request
use sofa_bolt_go.Request.{Request, RequestWritten, encode_error, command_written}
use sofa_bolt_go.Response
use sofa_bolt_go.Response.{Response}
use sofa_bolt_go.Client.Table.{remove, insert, get_and_del, update}

-- The errors that `invoke` returns; `io` is one of the connection or of the object's encoder.
pub data ClientError (E : Type 0) : Type 0 where
  was_closed not_a_request timed_out : ClientError E
  malformed : Written → ClientError E
  io : E → ClientError E

-- What `invoke` returns: nil at once, nil with a response, or an error.
pub data Result (E : Type 0) : Type 0 where
  sent answered : Result E
  failed : ClientError E → Result E

-- Where a caller stands in `invoke`: before the test of `closed`, of `rerr`, of the type and the
-- numbering, before `addRequestContext`, `write`, `delRequestContext`, in the `select`, and behind.
pub data Phase (E : Type 0) : Type 0 where
  starting checking numbering : Phase E
  adding writing : ℕ → Bytes → Phase E
  removing : ℕ → Result E → Phase E
  waiting : ℕ → Phase E
  returned : Result E → Phase E

-- `errCh` has room for one error, and is nil where there is a callback. `calls` is not in the
-- source: it lists what `Invoke` and the end of the read loop reported to the invocation.
pub record InvokeContext (E : Type 0) : Type 0 where
  pub req : Request
  pub res : Response
  pub ires : Response
  pub err_ch : List (Option E)
  pub callback : Bool
  pub has_timeout : Bool
  pub phase : Phase E
  pub calls : List (Option E × Option Response)

-- Where the read loop stands: before a read, before `Invoke` of a context that is out of the table,
-- before `Close`, before the store of its error, and behind.
pub data Reader (E : Type 0) : Type 0 where
  reading : Reader E
  delivering : ℕ → Response → Reader E
  closing storing : E → Reader E
  stopped : Reader E

-- `served` lists the requests given to the handler.
pub record Client (E : Type 0) : Type 0 where
  pub requests : List (ℕ × ℕ)
  pub disable_auto_increment_request_id : Bool
  pub has_handler : Bool
  pub rid : ℕ  -- uint32
  pub closed : Bool
  pub rerr : Option E
  pub contexts : ℕ → InvokeContext E
  pub reader : Reader E
  pub served : List Request

-- How the world answers a caller: the error of its write, and whether its timer has fired.
pub record Choice (E : Type 0) : Type 0 where
  pub write_error : Option E
  pub timer_fired : Bool

-- How a read ends: with a command, or an error and whether a new connection was made afterwards.
pub data Input (E : Type 0) : Type 0 where
  got : Command → Input E
  broken : E → Bool → Input E

module _ {E : Type 0} where
  abbrev pub put : ℕ → InvokeContext E → Client E → Client E
  put i c w = record w { contexts = update w.contexts i c }

  abbrev pub goto : Phase E → InvokeContext E → InvokeContext E
  goto p c = record c { phase = p }

  -- `AssignResponse`.
  unfoldable pub assign_response : Response → InvokeContext E → InvokeContext E
  assign_response res c = record c { ires = Response.copy_to res (Response.reset c.ires) }

  -- `Invoke`: none where the send on `errCh` blocks.
  unfoldable pub invoke_context : Option E → Response → InvokeContext E → Option (InvokeContext E)
  invoke_context err res c =
      let told = (err, some res) ∷ c.calls in
      if c.callback then some (record c { res = res; calls = told }) else send c.err_ch
    where
      send : List (Option E) → Option (InvokeContext E)
      send [] =
          some (record (assign_response res c) {
            err_ch = err ∷ [];
            calls = (err, some res) ∷ c.calls;
          })
      send (v ∷ vs) = none

  -- What the end of the read loop does to a pending context: the send is dropped if it would block.
  unfoldable pub abort : E → InvokeContext E → InvokeContext E
  abort err c =
      if c.callback then record c { calls = (some err, none) ∷ c.calls } else send c.err_ch
    where
      send : List (Option E) → InvokeContext E
      send [] = record c { err_ch = some err ∷ []; calls = (some err, none) ∷ c.calls }
      send (v ∷ vs) = c

  abbrev pub abort_all : E → List (ℕ × ℕ) → (ℕ → InvokeContext E) → ℕ → InvokeContext E
  abort_all err [] f = f
  abort_all err ((r, i) ∷ xs) f = abort_all err xs (update f i (abort err (f i)))

  -- The pending requests are told, and then forgotten.
  unfoldable pub cleanup : E → Client E → Client E
  cleanup err w = record w { requests = []; contexts = abort_all err w.requests w.contexts }

  -- `handleResponse` up to `Invoke`.
  unfoldable pub handle_response : Response → Client E → Client E
  handle_response res w = go (get_and_del (Response.get_request_id res) w.requests)
    where
      go : Option ℕ × List (ℕ × ℕ) → Client E
      go (none, xs) = record w { requests = xs }
      go (some i, xs) = record w { requests = xs; reader = delivering i res }

  -- `handleRequest`.
  unfoldable pub handle_request : Request → Client E → Client E
  handle_request req w = if w.has_handler then record w { served = req ∷ w.served } else w

  -- What the loop does with a command: its `req` and `res` never hold a Java object.
  unfoldable pub handle : Command → Client E → Client E
  handle cmd w =
      if is_request cmd
      then handle_request (record { command = cmd; tbconn = none }) w
      else handle_response (record { command = cmd; tbconn = none }) w

  -- `Invoke` on the context at hand: none where the loop blocks.
  unfoldable pub deliver : ℕ → Response → Client E → Option (Client E)
  deliver i res w = go (invoke_context none res (w.contexts i))
    where
      go : Option (InvokeContext E) → Option (Client E)
      go none = none
      go (some c) = some (record (put i c w) { reader = reading })

  -- A step of `doread`: none where it blocks.
  unfoldable pub doread : Input E → Client E → Option (Client E)
  doread input w = at w.reader input
    where
      at : Reader E → Input E → Option (Client E)
      at reading (got cmd) = some (handle cmd w)
      at reading (broken e redialed) = some (record (cleanup e w) {
        reader = if redialed && not w.closed then reading else closing e;
      })
      at (delivering i res) input = deliver i res w
      at (closing e) input = some (record w { closed = true; reader = storing e })
      at (storing e) input = some (record w { rerr = some e; reader = stopped })
      at stopped input = some w
