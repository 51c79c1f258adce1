-- ===== src/ClientResponseWriter.antt =====
-- sofabolt/client_response_wirter.go: the writer through which a client's handler answers a request of
-- the server, on the connection of the client. The read loop has one, which it resets for each request.
pub mod Answers
use sofa_bolt_go.Base.{
  ℕ, ◌≡◌, Bool, true, false, Option, none, some, List, [], ◌∷◌, Bytes, ltb, ◌==◌, if◌then◌else◌,
}
use sofa_bolt_go.ReadHelper.{ReadHelper}
use sofa_bolt_go.Command.Write.{Written, written, malformed_proto, malformed_type, panicked}
use sofa_bolt_go.Request
use sofa_bolt_go.Request.{Request, RequestWritten, encode_error, command_written}
use sofa_bolt_go.Response
use sofa_bolt_go.Response.{Response}
use sofa_bolt_go.ResponseWriter.{
  WriteError, duplicated, encoding, malformed, io_error, latest, derived_cmdcode,
}

-- `out` is what the connection was given, the last first.
pub record ClientResponseWriter (E : Type 0) : Type 0 where
  pub numwrite : ℕ
  pub err : Option E
  pub res : Response
  pub out : List Bytes

unfoldable pub derive_response : Request → Response → Response
derive_response req res =
    let res = record res { command = record (res.command) { proto = req.command.proto } } in
    let res = Response.set_request_id (Request.get_request_id req) res in
    record res { command = record (res.command) { cmdcode = derived_cmdcode req.command.cmdcode } }

module _ {E : Type 0} where
  unfoldable pub derive : Request → ClientResponseWriter E → ClientResponseWriter E
  derive req c = record c { res = derive_response req c.res }

  -- The error stays as it is.
  unfoldable pub reset : ClientResponseWriter E → ClientResponseWriter E
  reset c = record c { numwrite = 0; res = Response.reset c.res }

-- `accept` is the connection: what it takes of some bytes, by what it was given before.
module _ (rh : ReadHelper) {E : Type 0} (encode : Option ℕ → Option E × Bytes)
    (accept : List Bytes → Bytes → ℕ × Option E) where
  unfoldable pub send :
      ClientResponseWriter E → RequestWritten E → ℕ × Option (WriteError E) × ClientResponseWriter E
  send c (encode_error e) = (0, some (encoding e), c)
  send c (command_written (written bs)) =
      let (n, e) = accept c.out bs in
      (n, io_error e, record c { out = bs ∷ c.out; numwrite = n; err = latest e c.err })
  send c (command_written malformed_proto) = (0, some (malformed malformed_proto), c)
  send c (command_written malformed_type) = (0, some (malformed malformed_type), c)
  send c (command_written panicked) = (0, some (malformed panicked), c)

  unfoldable pub write : ClientResponseWriter E → ℕ × Option (WriteError E) × ClientResponseWriter E
  write c =
      if ltb 0 c.numwrite
      then (0, some duplicated, c)
      else send c (Response.write rh encode [] c.res)
