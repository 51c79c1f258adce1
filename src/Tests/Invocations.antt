-- ===== src/Tests/Invocations.antt =====
-- The theorems on the client at one invocation and its response.
use sofa_bolt_go.Base.{ℕ, ◌≤◌, ◌≡◌, refl, true, false, Option, none, some, [], ◌∷◌, Bytes, length}
use sofa_bolt_go.Command.{Command, zero_command}
use sofa_bolt_go.Request
use sofa_bolt_go.Request.{Request, set_request_id, get_request_id, get-set_request_id}
use sofa_bolt_go.Response
use sofa_bolt_go.Response.{Response}
use sofa_bolt_go.Command.{is_request}
use sofa_bolt_go.Command.Write.{write_command, write_command_tb_remoting}
use sofa_bolt_go.Client.Table.{find}
use sofa_bolt_go.Client.{
  Client, InvokeContext, starting, reading, returned, answered, Choice, got, doread, cleanup,
  handle, handle_response, deliver, invoke_context, assign_response,
}
use sofa_bolt_go.Client.Invoke.{
  invoke, start_numbering, number, encoded, after_write, select, caller, loop, Run, done, later,
}
use sofa_bolt_go.Client.Safety.{
  IsFresh, calls-once, answered-request_id, doread-progress, cleanup-tells,
}
use sofa_bolt_go.Tests.Reader.{bytes_reader}

abbrev encode : Option ℕ → Option (Unit {0}) × Bytes
encode id = (none, [])

abbrev request : Request
request = record { command = record (zero_command) { proto = 13; typ = 1 }; tbconn = none }

abbrev context : InvokeContext (Unit {0})
context = record {
  req = request;
  res = record { command = zero_command; tbconn = none };
  ires = record { command = zero_command; tbconn = none };
  err_ch = [];
  callback = false;
  has_timeout = true;
  phase = starting;
  calls = [];
}

abbrev client : Client (Unit {0})
client = record {
  requests = [];
  disable_auto_increment_request_id = false;
  has_handler = false;
  rid = 4294967295;
  closed = false;
  rerr = none;
  contexts = λ i. context;
  reader = reading;
  served = [];
}

client-IsFresh : IsFresh client
client-IsFresh = record {
  requests = refl;
  reader = refl;
  phase = λ i. refl;
  calls = λ i. refl;
  err_ch = λ i. refl;
}

abbrev smooth : Choice (Unit {0})
smooth = record { write_error = none; timer_fired = false }

abbrev call : Client (Unit {0}) → Client (Unit {0})
call w = invoke bytes_reader encode smooth 0 w

abbrev waiting_client : Client (Unit {0})
waiting_client = call (call (call (call (call client))))

until_waiting : Run bytes_reader encode client waiting_client
until_waiting =
    later _ _
      (later _ _
        (later _ _ (later _ _ (later _ _ done (caller smooth 0)) (caller smooth 0))
          (caller smooth 0))
        (caller smooth 0))
      (caller smooth 0)

abbrev response : Command
response = record (zero_command) { proto = 13; cmdcode = 2 }

abbrev or : Option (Client (Unit {0})) → Client (Unit {0}) → Client (Unit {0})
or none w = w
or (some v) w = v

abbrev received : Client (Unit {0})
received = or (doread (got response) waiting_client) waiting_client

abbrev delivered : Client (Unit {0})
delivered = or (doread (got response) received) received

-- The counter wraps: the request has the id 0.
wrapped : (waiting_client.contexts 0).req.command.rid ≡ 0
unfolding invoke start_numbering number encoded set_request_id after_write select Request.write
    write_command write_command_tb_remoting doread handle handle_response deliver invoke_context
    assign_response is_request Response.get_request_id zero_command
wrapped = refl

calls-once_example : length (waiting_client.contexts 0).calls ≤ 1
calls-once_example =
    calls-once bytes_reader encode client waiting_client 0 client-IsFresh until_waiting

doread-progress_example :
    (w'' : Client (Unit {0})) × (doread (got response) waiting_client ≡ some w'')
doread-progress_example =
    doread-progress bytes_reader encode client waiting_client (got response) client-IsFresh
      until_waiting

is_pending : find 0 waiting_client.requests ≡ some 0
unfolding invoke start_numbering number encoded set_request_id after_write select Request.write
    write_command write_command_tb_remoting doread handle handle_response deliver invoke_context
    assign_response is_request Response.get_request_id zero_command
is_pending = refl

cleanup-tells_example :
    ((cleanup tt waiting_client).requests ≡ [])
    × (((cleanup tt waiting_client).contexts 0).calls ≡ (some tt, none) ∷ [])
cleanup-tells_example =
    cleanup-tells bytes_reader encode client waiting_client tt 0 0 client-IsFresh until_waiting
      is_pending

until_answered : Run bytes_reader encode client (call delivered)
unfolding invoke start_numbering number encoded set_request_id after_write select Request.write
    write_command write_command_tb_remoting doread handle handle_response deliver invoke_context
    assign_response is_request Response.get_request_id zero_command
until_answered =
    later _ _
      (later _ _ (later _ _ until_waiting (loop (got response) received refl))
        (loop (got response) delivered refl))
      (caller smooth 0)

is_answered : ((call delivered).contexts 0).phase ≡ returned answered
unfolding invoke start_numbering number encoded set_request_id after_write select Request.write
    write_command write_command_tb_remoting doread handle handle_response deliver invoke_context
    assign_response is_request Response.get_request_id zero_command
is_answered = refl

answered-request_id_example :
    ((call delivered).contexts 0).res.command.rid ≡ get_request_id ((call delivered).contexts 0).req
answered-request_id_example =
    answered-request_id bytes_reader encode client (call delivered) 0 client-IsFresh until_answered
      is_answered
