-- ===== src/ResponseWriter.antt =====
-- sofabolt/response_writer.go: the writer that a handler answers a request through.
pub mod Once
use sofa_bolt_go.Base.{
  ℕ, ◌≡◌, Bool, true, false, Option, none, some, List, [], ◌∷◌, Bytes, codes, ltb, ◌==◌,
  if◌then◌else◌,
}
use sofa_bolt_go.ReadHelper.{ReadHelper}
use sofa_bolt_go.Command.{Command}
use sofa_bolt_go.Command.Write.{Written, written, malformed_proto, malformed_type, panicked}
use sofa_bolt_go.Request
use sofa_bolt_go.Request.{Request, RequestWritten, encode_error, command_written}
use sofa_bolt_go.Response
use sofa_bolt_go.Response.{Response, cmdcode_bolt_response}

-- `out` is what was given to the io.Writer behind it, the last first.
pub record SofaResponseWriter (E : Type 0) : Type 0 where
  pub id : ℕ  -- uint64
  pub out : List Bytes
  pub numwrite : ℕ
  pub res : Response
  pub err : Option E
  pub hijacked : Bool

-- The errors of `Write`: the duplicate, those of the response's writer, and the io.Writer's.
pub data WriteError (E : Type 0) : Type 0 where
  duplicated : WriteError E
  encoding : E → WriteError E
  malformed : Written → WriteError E
  io : E → WriteError E

-- The command codes that `Derive` tells apart.
abbrev pub cmdcode_bolt_heartbeat : ℕ
cmdcode_bolt_heartbeat = 0

abbrev pub cmdcode_tr_remoting_request : ℕ
cmdcode_tr_remoting_request = 13

abbrev pub cmdcode_tr_remoting_response : ℕ
cmdcode_tr_remoting_response = 14

abbrev pub class_response : Bytes
class_response = codes "com.alipay.sofa.rpc.core.response.SofaResponse"

abbrev pub derived_cmdcode : ℕ → ℕ
derived_cmdcode c =
    if c == cmdcode_bolt_heartbeat
    then cmdcode_bolt_heartbeat
    else if c == cmdcode_tr_remoting_request
    then cmdcode_tr_remoting_response
    else cmdcode_bolt_response

-- The protocol, the id, the code and the class of the response to a request.
unfoldable pub derive_response : Request → Response → Response
derive_response req res =
    let res = record res { command = record (res.command) { proto = req.command.proto } } in
    let res = Response.set_request_id (Request.get_request_id req) res in
    record res {
      command = record (res.command) {
        cmdcode = derived_cmdcode req.command.cmdcode;
        class = class_response;
      };
    }

module _ {E : Type 0} where
  -- The error stays as it is.
  unfoldable pub reset : SofaResponseWriter E → SofaResponseWriter E
  reset rw = record rw { numwrite = 0; res = Response.reset rw.res; hijacked = false }

  unfoldable pub derive : Request → SofaResponseWriter E → SofaResponseWriter E
  derive req rw = record rw { res = derive_response req rw.res }

  -- The connection is handed out once.
  unfoldable pub hijack : SofaResponseWriter E → Bool × SofaResponseWriter E
  hijack rw = if rw.hijacked then (false, rw) else (true, record rw { hijacked = true })

  abbrev pub latest : Option E → Option E → Option E
  latest none old = old
  latest (some e) old = some e

  abbrev pub io_error : Option E → Option (WriteError E)
  io_error none = none
  io_error (some e) = some (io e)

-- `accept` is the io.Writer: what it takes of some bytes, by what it was given before.
module _ (rh : ReadHelper) {E : Type 0} (encode : Option ℕ → Option E × Bytes)
    (accept : List Bytes → Bytes → ℕ × Option E) where
  unfoldable pub send :
      SofaResponseWriter E → RequestWritten E → ℕ × Option (WriteError E) × SofaResponseWriter E
  send rw (encode_error e) = (0, some (encoding e), rw)
  send rw (command_written (written bs)) =
      let (n, e) = accept rw.out bs in
      (n, io_error e, record rw { out = bs ∷ rw.out; numwrite = n; err = latest e rw.err })
  send rw (command_written malformed_proto) = (0, some (malformed malformed_proto), rw)
  send rw (command_written malformed_type) = (0, some (malformed malformed_type), rw)
  send rw (command_written panicked) = (0, some (malformed panicked), rw)

  unfoldable pub write : SofaResponseWriter E → ℕ × Option (WriteError E) × SofaResponseWriter E
  write rw =
      if ltb 0 rw.numwrite
      then (0, some duplicated, rw)
      else send rw (Response.write rh encode [] rw.res)
