-- ===== src/Server.antt =====
-- sofabolt/server.go: one connection, from the request read to the response written. The bufio
-- writer's own buffer is not modelled: `out` of the response writer is what it was given.
pub mod Responses
pub mod Answers
pub mod TakenOver
pub mod Hooks
pub mod Session
pub mod Turns
pub mod Loop
pub mod Flush
pub mod Closing
pub mod Accept
pub mod Serving
use sofa_bolt_go.Base.{
  ℕ, ◌+◌, ◌-◌, ◌≡◌, Bool, true, false, not, ◌&&◌, ◌||◌, Option, none, some, List, [], ◌∷◌, Bytes,
  ltb, leb, ◌==◌, if◌then◌else◌, length,
}
use sofa_bolt_go.ReadHelper.{ReadHelper}
use sofa_bolt_go.Command.{
  type_bolt_request, type_bolt_request_one_way, type_tb_remoting_one_way, zero_command,
}
use sofa_bolt_go.Request
use sofa_bolt_go.Request.{Request}
use sofa_bolt_go.Response.{Response}
use sofa_bolt_go.ResponseWriter
use sofa_bolt_go.ResponseWriter.{SofaResponseWriter}

-- What a handler does with its response writer: it changes the response, writes it, or takes the
-- connection over. A handler is the list of what it does with a request.
pub data Action : Type 0 where
  edit : (Response → Response) → Action
  write_response take_over : Action

abbrev pub Handler : Type 0
Handler = Request → List Action

-- ServerMetrics, as far as a connection counts.
pub record ServerMetrics : Type 0 where
  pub bytes_read : ℕ
  pub bytes_write : ℕ
  pub commands : ℕ

-- `spawned` is the requests given to goroutines of their own, with the writer's id, the last first.
-- `flushes` is the number of calls of `flush`.
pub record Conn (E : Type 0) : Type 0 where
  pub rw : SofaResponseWriter E
  pub last_flush_time : ℕ
  pub flushes : ℕ
  pub metrics : ServerMetrics
  pub spawned : List (ℕ × Request)

pub data ServerError (E : Type 0) : Type 0 where
  not_a_request : ServerError E
  io : E → ServerError E

-- The hook before a read of the connection: whether the buffer has something, the time, the error
-- of the deadline, and the error that a flush would give.
pub record Hook (E : Type 0) : Type 0 where
  pub buffered : Bool
  pub now : ℕ
  pub deadline_error : Option E
  pub flush_error : Option E

-- What a read of a request ends in, with the hooks that ran on the way; behind it, the time of the
-- flush and its error.
pub data Input (E : Type 0) : Type 0 where
  got : List (Hook E) → ℕ → Request → ℕ → Option E → Input E
  broken : List (Hook E) → E → Input E

-- How the loop stands at the end of its inputs: waiting, or ended by a hijacker or an error.
pub data Ended (E : Type 0) : Type 0 where
  waiting taken_over : Ended E
  failed : ServerError E → Ended E

-- `srv.options`: the flush interval, and the asynchronous mode.
pub record Options : Type 0 where
  pub flush_interval : ℕ
  pub async : Bool

-- The test of `serveConn` on the type.
abbrev pub is_served : ℕ → Bool
is_served typ =
    typ == type_bolt_request || typ == type_bolt_request_one_way || typ == type_tb_remoting_one_way

-- The test of the response that is written for a handler that wrote none.
abbrev pub expects_response : ℕ → Bool
expects_response typ =
    not (typ == type_bolt_request_one_way) && not (typ == type_tb_remoting_one_way)

-- `flushWrite`: the time returned, and whether `flush` is called.
unfoldable pub flush_write : Options → ℕ → ℕ → ℕ × Bool
flush_write o now last =
    if ltb 0 o.flush_interval
    then (if leb o.flush_interval (now - last) then (now, true) else (now, false))
    else (now, true)

module _ {E : Type 0} where
  -- `flushWrite` on the connection: its error is that of the flush, if there is one.
  unfoldable pub flush_conn : Options → ℕ → Option E → Conn E → Option E × Conn E
  flush_conn o now e k =
      let (last, flushed) = flush_write o now k.last_flush_time in
      if flushed
      then (e, record k { last_flush_time = last; flushes = k.flushes + 1 })
      else (none, record k { last_flush_time = last })

  -- `beforeread`.
  unfoldable pub before_read : Options → Hook E → Conn E → Option E × Conn E
  before_read o h k = go h.deadline_error
    where
      go : Option E → Option E × Conn E
      go (some e) = (some e, k)
      go none = if h.buffered then flush_conn o h.now h.flush_error k else (none, k)

  -- The hooks of one read, up to the first error.
  unfoldable pub run_hooks : Options → List (Hook E) → Conn E → Option E × Conn E
  run_hooks o [] k = (none, k)
  run_hooks o (h ∷ hs) k = elim ((before_read o h k).0) [
    | some e ↦ (some e, (before_read o h k).1)
    | none ↦ run_hooks o hs (before_read o h k).1
  ]

abbrev pub count_command : ServerMetrics → ServerMetrics
count_command m = record m { commands = m.commands + 1 }

-- `rh`, `encode` and `accept` are those of the response writer.
module _ (rh : ReadHelper) {E : Type 0} (encode : Option ℕ → Option E × Bytes)
    (accept : List Bytes → Bytes → ℕ × Option E) where
  abbrev pub act : Action → SofaResponseWriter E → SofaResponseWriter E
  act (edit f) rw = record rw { res = f rw.res }
  act write_response rw = (ResponseWriter.write rh encode accept rw).2
  act take_over rw = (ResponseWriter.hijack rw).1

  unfoldable pub act_all : List Action → SofaResponseWriter E → SofaResponseWriter E
  act_all [] rw = rw
  act_all (a ∷ more) rw = act_all more (act a rw)

  -- The response that is written once to avoid none, or the bytes counted.
  unfoldable pub finish :
      Request → SofaResponseWriter E × ServerMetrics → SofaResponseWriter E × ServerMetrics
  finish req (rw, m) =
      if rw.numwrite == 0 && expects_response req.command.typ
      then ((ResponseWriter.write rh encode accept rw).2, m)
      else (rw, record m { bytes_write = m.bytes_write + rw.numwrite })

  -- `serveCommand`: the pending count goes up and down again.
  unfoldable pub serve_command :
      Handler
      → Request
      → SofaResponseWriter E × ServerMetrics
      → SofaResponseWriter E × ServerMetrics
  serve_command handler req (rw, m) = (act_all (handler req) rw, count_command m)

  -- `handleCommandSync`, whose result is `IsHijacked` of the writer.
  unfoldable pub handle_command_sync :
      Handler
      → Request
      → SofaResponseWriter E × ServerMetrics
      → SofaResponseWriter E × ServerMetrics
  handle_command_sync handler req (rw, m) =
      finish req
        (serve_command handler req (ResponseWriter.derive req (ResponseWriter.reset rw), m))

  -- `doHandleCommandAsync`, with a writer from the pool that writes to the connection.
  unfoldable pub do_handle_command_async :
      Handler
      → ℕ
      → Request
      → SofaResponseWriter E × ServerMetrics
      → SofaResponseWriter E × ServerMetrics
  do_handle_command_async handler id req (rw, m) =
      finish req (serve_command handler req (ResponseWriter.derive req (record rw { id = id }), m))

  -- `handleCommandAsync` up to the goroutine: the command is copied into a request from the pool,
  -- which has been reset.
  unfoldable pub handle_command_async : Request → Conn E → Conn E
  handle_command_async raw k =
      let fresh : Request = record { command = zero_command; tbconn = none } in
      record k { spawned = (k.rw.id, Request.copy_to raw fresh) ∷ k.spawned }

  -- `HandleCommand`, and whether the connection was taken over.
  unfoldable pub handle_command : Options → Handler → Request → Conn E → Bool × Conn E
  handle_command o handler req k =
      let (rw, m) = handle_command_sync handler req (k.rw, k.metrics) in
      if not o.async
      then (rw.hijacked, record k { rw = rw; metrics = m })
      else (false, handle_command_async req k)

  -- What follows a request that was read: `none` to go on.
  unfoldable pub served :
      Options → Handler → ℕ → Request → ℕ → Option E → Conn E → Option (Ended E) × Conn E
  served o handler nr req now e k =
      let k = record k {
        metrics = record (k.metrics) { bytes_read = k.metrics.bytes_read + nr };
      } in
      let (hijacked, k') = handle_command o handler req k in
      let (flush_error, k'') = flush_conn o now e k' in
      if is_served req.command.typ
      then (after flush_error hijacked, k'')
      else (some (failed not_a_request), k)
    where
      after : Option E → Bool → Option (Ended E)
      after (some e) hijacked = some (failed (io e))
      after none hijacked = if hijacked then some taken_over else none

  -- One round of the loop.
  unfoldable pub round : Options → Handler → Input E → Conn E → Option (Ended E) × Conn E
  round o handler (got hooks nr req now e) k = go (run_hooks o hooks k)
    where
      go : Option E × Conn E → Option (Ended E) × Conn E
      go (some e', k') = (some (failed (io e')), k')
      go (none, k') = served o handler nr req now e k'
  round o handler (broken hooks e) k = go (run_hooks o hooks k)
    where
      go : Option E × Conn E → Option (Ended E) × Conn E
      go (some e', k') = (some (failed (io e')), k')
      go (none, k') = (some (failed (io e)), k')

  -- The loop of `serveConn` on what its reads end in.
  unfoldable pub serve_loop : Options → Handler → List (Input E) → Conn E → Ended E × Conn E
  serve_loop o handler [] k = (waiting, k)
  serve_loop o handler (i ∷ is) k = elim ((round o handler i k).0) [
    | some ended ↦ (ended, (round o handler i k).1)
    | none ↦ serve_loop o handler is (round o handler i k).1
  ]

  -- `serveConn`: behind the loop what is left in the buffer is flushed, and the error dropped.
  unfoldable pub serve_conn :
      Options → Handler → List (Input E) → Hook E → Conn E → Ended E × Conn E
  serve_conn o handler inputs last k = behind (serve_loop o handler inputs k)
    where
      flush_rest : Conn E → Conn E
      flush_rest k' = if last.buffered then (flush_conn o last.now last.flush_error k').1 else k'

      behind : Ended E × Conn E → Ended E × Conn E
      behind (waiting, k') = (waiting, k')
      behind (taken_over, k') = (taken_over, flush_rest k')
      behind (failed e, k') = (failed e, flush_rest k')
