-- ===== src/Tests/Reused.antt =====
-- The client with a pool of contexts, at one context that is used for two calls.
use sofa_bolt_go.Base.{ℕ, ◌≡◌, refl, false, Option, none, some, [], Bytes}
use sofa_bolt_go.Command
use sofa_bolt_go.Command.{Command, zero_command, is_request}
use sofa_bolt_go.Command.Write.{write_command, write_command_tb_remoting}
use sofa_bolt_go.Request
use sofa_bolt_go.Request.{Request, set_request_id}
use sofa_bolt_go.Response
use sofa_bolt_go.Response.{Response}
use sofa_bolt_go.Client.{
  Client, starting, reading, returned, answered, sent, Choice, got, doread, put, handle,
  handle_response, deliver, invoke_context, assign_response,
}
use sofa_bolt_go.Client.Invoke.{
  invoke, start_numbering, number, encoded, after_write, select, caller, loop,
}
use sofa_bolt_go.Client.Safety.{IsFresh}
use sofa_bolt_go.Client.Pooled.{
  acquire, PooledRun, fresh, step, reuse, IsUndisturbed, pooled-request_id,
}
use sofa_bolt_go.Tests.Reader.{bytes_reader}

abbrev encode : Option ℕ → Option (Unit {0}) × Bytes
encode id = (none, [])

abbrev request : ℕ → Request
request typ = record { command = record (zero_command) { proto = 13; typ = typ }; tbconn = none }

abbrev no_response : Response
no_response = record { command = zero_command; tbconn = none }

-- The first call is one-way.
abbrev client : Client (Unit {0})
client = record {
  requests = [];
  disable_auto_increment_request_id = false;
  has_handler = false;
  rid = 0;
  closed = false;
  rerr = none;
  contexts = λ i. record {
    req = request 2;
    res = no_response;
    ires = no_response;
    err_ch = [];
    callback = false;
    has_timeout = false;
    phase = starting;
    calls = [];
  };
  reader = reading;
  served = [];
}

client-IsFresh : IsFresh client
client-IsFresh = record {
  requests = refl;
  reader = refl;
  phase = λ i. refl;
  calls = λ i. refl;
  err_ch = λ i. refl;
}

abbrev smooth : Choice (Unit {0})
smooth = record { write_error = none; timer_fired = false }

abbrev call : Client (Unit {0}) → Client (Unit {0})
call w = invoke bytes_reader encode smooth 0 w

abbrev response : ℕ → Command
response rid = record (zero_command) { proto = 13; cmdcode = 2; rid = rid }

abbrev or : Option (Client (Unit {0})) → Client (Unit {0}) → Client (Unit {0})
or none w = w
or (some v) w = v

abbrev got_response : ℕ → Client (Unit {0}) → Client (Unit {0})
got_response rid w = or (doread (got (response rid)) w) w

abbrev again : Client (Unit {0}) → Client (Unit {0})
again w = put 0 (acquire (request 1) no_response false (w.contexts 0)) w

abbrev calls :
    {v : Client (Unit {0})} (w : Client (Unit {0}))
    → PooledRun bytes_reader encode v w
    → PooledRun bytes_reader encode v (call w)
calls w run = step w _ run (caller smooth 0)

abbrev four : Client (Unit {0}) → Client (Unit {0})
four w = call (call (call (call w)))

abbrev four_calls :
    {v : Client (Unit {0})} (w : Client (Unit {0}))
    → PooledRun bytes_reader encode v w
    → PooledRun bytes_reader encode v (four w)
four_calls w run = calls _ (calls _ (calls _ (calls w run)))

-- The first call returns, its context is used again, and the second call is answered.
abbrev sent_one_way : Client (Unit {0})
sent_one_way = call (call (call (four client)))

abbrev second_waits : Client (Unit {0})
second_waits = call (four (again sent_one_way))

abbrev second_answered : Client (Unit {0})
second_answered = call (got_response 2 (got_response 2 second_waits))

until_sent : PooledRun bytes_reader encode client sent_one_way
until_sent = calls _ (calls _ (calls _ (four_calls client fresh)))

is_sent : (sent_one_way.contexts 0).phase ≡ returned sent
unfolding invoke start_numbering number encoded set_request_id after_write select Request.write
    write_command write_command_tb_remoting zero_command
is_sent = refl

not_callback : (sent_one_way.contexts 0).callback ≡ false
unfolding invoke start_numbering number encoded set_request_id after_write select Request.write
    write_command write_command_tb_remoting zero_command
not_callback = refl

until_second_waits : PooledRun bytes_reader encode client second_waits
until_second_waits = calls _ (
    four_calls _ (
      reuse sent_one_way 0 sent (request 1) no_response false until_sent not_callback is_sent refl))

until_second_answered : PooledRun bytes_reader encode client second_answered
unfolding invoke start_numbering number encoded set_request_id after_write select Request.write
    write_command write_command_tb_remoting doread handle handle_response deliver invoke_context
    assign_response is_request Response.get_request_id zero_command acquire
until_second_answered = calls _ (
    step _ (got_response 2 (got_response 2 second_waits))
      (step _ (got_response 2 second_waits) until_second_waits (loop (got (response 2)) _ refl))
      (loop (got (response 2)) _ refl))

undisturbed : IsUndisturbed bytes_reader encode client second_answered until_second_answered
unfolding invoke start_numbering number encoded set_request_id after_write select Request.write
    write_command write_command_tb_remoting doread handle handle_response deliver invoke_context
    assign_response is_request Response.get_request_id zero_command acquire until_second_answered
    IsUndisturbed until_second_waits until_sent
undisturbed = (tt, tt)

second_is_answered : (second_answered.contexts 0).phase ≡ returned answered
unfolding invoke start_numbering number encoded set_request_id after_write select Request.write
    write_command write_command_tb_remoting doread handle handle_response deliver invoke_context
    assign_response is_request Response.get_request_id zero_command acquire
second_is_answered = refl

pooled-request_id_example :
    (second_answered.contexts 0).res.command.rid
    ≡ Request.get_request_id (second_answered.contexts 0).req
pooled-request_id_example =
    pooled-request_id bytes_reader encode client second_answered 0 until_second_answered
      client-IsFresh undisturbed second_is_answered

-- The server answers the one-way request at once: the read loop takes its context out of the table,
-- the caller returns, the context is used again, and then the loop tells it.
abbrev taken : Client (Unit {0})
taken = got_response 1 (call (four client))

abbrev crossed : Client (Unit {0})
crossed = call (got_response 1 (call (four (again (call (call taken))))))

until_crossed : PooledRun bytes_reader encode client crossed
unfolding invoke start_numbering number encoded set_request_id after_write select Request.write
    write_command write_command_tb_remoting doread handle handle_response deliver invoke_context
    assign_response is_request Response.get_request_id zero_command acquire
until_crossed = calls _ (
    step (call (four (again (call (call taken))))) _
      (calls _ (
        four_calls _ (
          reuse (call (call taken)) 0 sent (request 1) no_response false
            (calls _ (
              calls _ (
                step (call (four client)) _ (calls _ (four_calls client fresh))
                  (loop (got (response 1)) taken refl))))
            refl refl refl)))
      (loop (got (response 1)) _ refl))

-- The second call returns the response to the first request.
crossed_answer :
    ((crossed.contexts 0).phase ≡ returned answered)
    × ((crossed.contexts 0).res.command.rid ≡ 1)
    × (Request.get_request_id (crossed.contexts 0).req ≡ 2)
unfolding invoke start_numbering number encoded set_request_id after_write select Request.write
    write_command write_command_tb_remoting doread handle handle_response deliver invoke_context
    assign_response is_request Response.get_request_id zero_command acquire Request.get_request_id
    Response.copy_to Command.copy_to
crossed_answer = (refl, refl, refl)
