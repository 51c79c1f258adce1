-- ===== src/Request/Reading.antt =====
-- sofabolt/request.go and sofabolt/response.go: `Read`, with the decoder of the Java object, which is
-- not part of the repository, as a parameter: by the bytes and the object's context that was there, an
-- error or the context that it leaves.
use sofa_bolt_go.Base.{ℕ, Option, none, some, Bytes, ◌==◌, if◌then◌else◌}
use sofa_bolt_go.ReadHelper.{ReadHelper}
use sofa_bolt_go.Command.{Command, proto_tb_remoting}
use sofa_bolt_go.Command.Read.{read_command}
use sofa_bolt_go.Command.Read.Monad.{Result, ok, err}
use sofa_bolt_go.Request.{Request}
use sofa_bolt_go.Response.{Response}

module _ (rh : ReadHelper) (decode : Bytes → Option ℕ → Option (Option ℕ)) where
  -- An error is discarded, and leaves an empty context.
  abbrev pub decoded : Option (Option ℕ) → Option ℕ
  decoded none = some 0
  decoded (some t) = t

  -- Behind the reader of the command.
  unfoldable pub object_read : Result rh.IoError ℕ → Command → Option ℕ → Option ℕ
  object_read (err e) cmd t = t
  object_read (ok n) cmd t =
      if cmd.proto == proto_tb_remoting then decoded (decode cmd.connection t) else t

  unfoldable pub read_request :
      Bytes → Request → rh.Reader → Result rh.IoError ℕ × Request × rh.Reader
  read_request b32 c br =
      let (r, s) = read_command rh b32 (record { cmd = c.command; br = br }) in
      (r, record { command = s.cmd; tbconn = object_read r s.cmd c.tbconn }, s.br)

  unfoldable pub read_response :
      Bytes → Response → rh.Reader → Result rh.IoError ℕ × Response × rh.Reader
  read_response b32 c br =
      let (r, s) = read_command rh b32 (record { cmd = c.command; br = br }) in
      (r, record { command = s.cmd; tbconn = object_read r s.cmd c.tbconn }, s.br)
