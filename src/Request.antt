-- ===== src/Request.antt =====
-- sofabolt/request.go: a command with the Java object that a TBRemoting command carries. Of that
-- object the model keeps what this code looks at: whether it has a context, and the id there. The
-- encoder of the object is not part of the repository, and is a parameter.
pub mod Reading
pub mod Carried
use sofa_bolt_go.Base.{
  ℕ, ◌%◌, ◌<◌, ◌≡◌, refl, Option, none, some, Bytes, ◌==◌, if◌then◌else◌, arith, Bool-cases, inl,
  inr,
}
use sofa_bolt_go.ReadHelper.{ReadHelper}
use sofa_bolt_go.Command
use sofa_bolt_go.Command.{Command, proto_tb_remoting}
use sofa_bolt_go.Command.Write.{Written, write_command}

pub record Request : Type 0 where
  pub command : Command
  pub tbconn : Option ℕ  -- Ctx.ID, an int64, where Ctx is not nil

-- The error of the object's encoder, or what the command's writer did.
pub data RequestWritten (E : Type 0) : Type 0 where
  encode_error : E → RequestWritten E
  command_written : Written → RequestWritten E

unfoldable pub set_request_id : ℕ → Request → Request
set_request_id id c = go c.tbconn
  where
    go : Option ℕ → Request
    go none = record c { command = record (c.command) { rid = id } }
    go (some old) =
        if c.command.proto == proto_tb_remoting
        then record c { tbconn = some id }
        else record c { command = record (c.command) { rid = id } }

unfoldable pub get_request_id : Request → ℕ
get_request_id c = go c.tbconn
  where
    go : Option ℕ → ℕ
    go none = c.command.rid
    go (some id) = if c.command.proto == proto_tb_remoting then id % 4294967296 else c.command.rid

-- `reset_object` is `Reset` of the object, which is not part of the repository. The Go context of the
-- request and the buffer for the encoded object, which `Reset` empties as well, are left out.
unfoldable pub reset : (Option ℕ → Option ℕ) → Request → Request
reset reset_object c = record {
  command = record (Command.reset c.command) {
    proto = c.command.proto;
    typ = c.command.typ;
    cmdcode = c.command.cmdcode;
  };
  tbconn = reset_object c.tbconn;
}

unfoldable pub copy_to : Request → Request → Request
copy_to c d = record d { command = Command.copy_to c.command d.command }

unfoldable pub write :
    (rh : ReadHelper) {E : Type 0}
    → (Option ℕ → Option E × Bytes)
    → Bytes
    → Request
    → RequestWritten E
write rh {E = E} encode b c =
    if c.command.proto == proto_tb_remoting
    then go (encode c.tbconn)
    else command_written (write_command rh b c.command)
  where
    go : Option E × Bytes → RequestWritten E
    go (some e, buf) = encode_error e
    go (none, buf) = command_written (write_command rh b (record (c.command) { connection = buf }))

get-set_cases :
    (id : ℕ) (cmd : Command) (t : Option ℕ)
    → id < 4294967296
    → get_request_id (set_request_id id (record { command = cmd; tbconn = t })) ≡ id
unfolding set_request_id get_request_id
get-set_cases id cmd none h = refl
get-set_cases id cmd (some old) h = elim (Bool-cases (cmd.proto == 13)) [
  | inl tb ↦ rw (tb, tb) (omega (arith, h))
  | inr bolt ↦ rw (bolt, bolt) refl
]

-- The id that was set is the id that is got, wherever the request keeps it, if it is a uint32.
pub get-set_request_id :
    (id : ℕ) (c : Request) → id < 4294967296 → get_request_id (set_request_id id c) ≡ id
get-set_request_id id c h = get-set_cases id c.command c.tbconn h
