-- ===== src/Response.antt =====
-- sofabolt/response.go: a command with the Java object of a TBRemoting response, as in Request.
use sofa_bolt_go.Base.{ℕ, ◌%◌, Option, none, some, Bytes, ◌==◌, if◌then◌else◌}
use sofa_bolt_go.ReadHelper.{ReadHelper}
use sofa_bolt_go.Command
use sofa_bolt_go.Command.{Command, proto_tb_remoting, type_bolt_response}
use sofa_bolt_go.Command.Write.{write_command}
use sofa_bolt_go.Request.{Request, RequestWritten, encode_error, command_written}

pub record Response : Type 0 where
  pub command : Command
  pub tbconn : Option ℕ  -- Ctx.ID, an int64, where Ctx is not nil

-- `CMDCodeBOLTResponse`.
abbrev pub cmdcode_bolt_response : ℕ
cmdcode_bolt_response = 2

unfoldable pub derive : Request → Response → Response
derive b c = record c {
  command = record (c.command) {
    proto = b.command.proto;
    ver1 = b.command.ver1;
    typ = type_bolt_response;
    cmdcode = cmdcode_bolt_response;
    ver2 = b.command.ver2;
    rid = b.command.rid;
    codec = b.command.codec;
    switc = b.command.switc;
    timeout = b.command.timeout;
    status = b.command.status;
  };
}

-- The object stays as it is.
unfoldable pub reset : Response → Response
reset c = record c {
  command = record (Command.reset c.command) {
    proto = c.command.proto;
    typ = c.command.typ;
    cmdcode = c.command.cmdcode;
  };
}

-- The id of the command is set in any case, other than for a request.
unfoldable pub set_request_id : ℕ → Response → Response
set_request_id id c = record c {
  command = record (c.command) { rid = id };
  tbconn = in_object c.tbconn;
}
  where
    in_object : Option ℕ → Option ℕ
    in_object none = none
    in_object (some old) = if c.command.proto == proto_tb_remoting then some id else some old

unfoldable pub get_request_id : Response → ℕ
get_request_id c = go c.tbconn
  where
    go : Option ℕ → ℕ
    go none = c.command.rid
    go (some id) = if c.command.proto == proto_tb_remoting then id % 4294967296 else c.command.rid

unfoldable pub copy_to : Response → Response → Response
copy_to c d = record d { command = Command.copy_to c.command d.command }

-- The connection that it sets in the command is not kept: a further `Write` sets it again.
unfoldable pub write :
    (rh : ReadHelper) {E : Type 0}
    → (Option ℕ → Option E × Bytes)
    → Bytes
    → Response
    → RequestWritten E
write rh {E = E} encode b c =
    if c.command.proto == proto_tb_remoting
    then go (encode c.tbconn)
    else command_written (write_command rh b c.command)
  where
    go : Option E × Bytes → RequestWritten E
    go (some e, buf) = encode_error e
    go (none, buf) = command_written (write_command rh b (record (c.command) { connection = buf }))
