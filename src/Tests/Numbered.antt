-- ===== src/Tests/Numbered.antt =====
-- The theorems on the second client at two invocations with one context, and their responses.
use sofa_bolt_go.Base.{
  ℕ, ◌≤◌, ◌≡◌, refl, arith, u32_max, true, false, Option, none, some, [], ◌∷◌, length,
}
use sofa_bolt_go.Command.{zero_command, is_request, shallow_copy_to}
use sofa_bolt_go.Command
use sofa_bolt_go.Request
use sofa_bolt_go.Response
use sofa_bolt_go.Client.{InvokeContext, assign_response, invoke_context}
use sofa_bolt_go.Client
use sofa_bolt_go.ClientConnBolt.{
  ClientConnBolt, starting, returned, sent, answered, idle, Choice, Dispatched, command, invoke_at,
  invoke, number_call, after_send, select, receive, dispatch_at, dispatch_step, dispatch,
  dispatch_response, deliver, put, cleanup_pending_requests, Run, done, later, caller, loop,
}
use sofa_bolt_go.ClientConnBolt.Told.{cleanup_pending_requests-tells}
use sofa_bolt_go.ClientConnBolt.Pooled.{
  PooledRun, fresh, step, reuse, call_again, IsUndisturbed, pooled-number, pooled-calls,
}
use sofa_bolt_go.Client.Pooled.{acquire}
use sofa_bolt_go.Client.Table.{find}
use sofa_bolt_go.ClientConnBolt.Safety.{IsFresh}

abbrev context : InvokeContext (Unit {0})
context = record {
  req = record { command = record (zero_command) { proto = 1; typ = 1 }; tbconn = none };
  res = record { command = zero_command; tbconn = none };
  ires = record { command = zero_command; tbconn = none };
  err_ch = [];
  callback = false;
  has_timeout = true;
  phase = Client.starting;
  calls = [];
}

abbrev client : ClientConnBolt (Unit {0})
client = record {
  requests = [];
  has_handler = false;
  increments = 0;
  closed = false;
  calls = λ i. record { stage = starting; ctx = context; number = none };
  dispatching = idle;
  served = [];
}

client-IsFresh : IsFresh client
client-IsFresh = record {
  requests = refl;
  dispatching = refl;
  stage = λ i. refl;
  number = λ i. refl;
  err_ch = λ i. refl;
}

abbrev smooth : Choice (Unit {0})
smooth = record { send_error = none; timer_fired = false }

abbrev call : ClientConnBolt (Unit {0}) → ClientConnBolt (Unit {0})
call w = invoke smooth 3 w

abbrev response : Dispatched (Unit {0})
response = command (record (zero_command) { proto = 1; rid = 1; cmdcode = 2 })

abbrev or :
    Option (ClientConnBolt (Unit {0})) → ClientConnBolt (Unit {0}) → ClientConnBolt (Unit {0})
or none w = w
or (some v) w = v

abbrev waiting_client : ClientConnBolt (Unit {0})
waiting_client = call (call (call (call client)))

abbrev received : ClientConnBolt (Unit {0})
received = or (dispatch_step response waiting_client) waiting_client

abbrev told : ClientConnBolt (Unit {0})
told = or (dispatch_step response received) received

until_waiting : Run client waiting_client
until_waiting =
    later _ _
      (later _ _ (later _ _ (later _ _ done (caller smooth 3)) (caller smooth 3)) (caller smooth 3))
      (caller smooth 3)

abbrev again : ClientConnBolt (Unit {0}) → ClientConnBolt (Unit {0})
again w = put 3 (call_again context.req context.res true (w.calls 3)) w

-- Both calls of one context, the first one returned with its response.
abbrev first_answered : ClientConnBolt (Unit {0})
first_answered = call (or (dispatch_step response received) received)

abbrev second_waiting : ClientConnBolt (Unit {0})
second_waiting = call (call (call (call (again first_answered))))

abbrev second_response : Dispatched (Unit {0})
second_response = command (record (zero_command) { proto = 1; rid = 2; cmdcode = 2 })

abbrev second_received : ClientConnBolt (Unit {0})
second_received = or (dispatch_step second_response second_waiting) second_waiting

abbrev second_told : ClientConnBolt (Unit {0})
second_told = or (dispatch_step second_response second_received) second_received

unfoldable four_steps :
    (w : ClientConnBolt (Unit {0}))
    → PooledRun client w
    → PooledRun client (call (call (call (call w))))
four_steps w r =
    step _ _
      (step _ _ (step _ _ (step w _ r (caller smooth 3)) (caller smooth 3)) (caller smooth 3))
      (caller smooth 3)

unfoldable until_first : PooledRun client first_answered
unfolding invoke_at number_call after_send select receive dispatch_at dispatch dispatch_response
    deliver invoke_context assign_response is_request Response.get_request_id zero_command
    shallow_copy_to Request.set_request_id
until_first =
    step _ _
      (step _ _ (step _ _ (four_steps client fresh) (loop response received refl))
        (loop response told refl))
      (caller smooth 3)

unfoldable until_second : PooledRun client (call second_told)
unfolding invoke_at number_call after_send select receive dispatch_at dispatch dispatch_response
    deliver invoke_context assign_response is_request Response.get_request_id zero_command
    shallow_copy_to Request.set_request_id call_again acquire
until_second =
    step _ _
      (step _ _
        (step _ _
          (four_steps (again first_answered) (
            reuse first_answered 3 answered context.req context.res true until_first refl refl
              refl))
          (loop second_response second_received refl))
        (loop second_response second_told refl))
      (caller smooth 3)

undisturbed : IsUndisturbed client (call second_told) until_second
unfolding invoke_at number_call after_send select receive dispatch_at dispatch dispatch_response
    deliver invoke_context assign_response is_request Response.get_request_id zero_command
    shallow_copy_to Request.set_request_id call_again acquire IsUndisturbed until_second until_first
    four_steps
undisturbed = (tt, tt)

is_answered : ((call second_told).calls 3).stage ≡ returned answered
unfolding invoke_at number_call after_send select receive dispatch_at dispatch dispatch_response
    deliver invoke_context assign_response is_request Response.get_request_id zero_command
    shallow_copy_to Request.set_request_id call_again acquire
is_answered = refl

few : (call second_told).increments ≡ 2
unfolding invoke_at number_call after_send select receive dispatch_at dispatch dispatch_response
    deliver invoke_context assign_response is_request Response.get_request_id zero_command
    shallow_copy_to Request.set_request_id call_again acquire
few = refl

pooled-number_example :
    (((call second_told).calls 3).number ≡ some ((call second_told).calls 3).ctx.res.command.rid)
    × (((call second_told).calls 3).ctx.res.command.rid ≤ u32_max)
    × ((j : ℕ)
        → ((call second_told).calls j).number
          ≡ some ((call second_told).calls 3).ctx.res.command.rid
        → j ≡ 3)
pooled-number_example =
    pooled-number client (call second_told) 3 until_second client-IsFresh (λ j. refl) undisturbed
      (omega (arith, few)) is_answered

pooled-calls_example :
    (length ((call second_told).calls 3).ctx.calls ≤ 1)
    × ((w : ClientConnBolt (Unit {0})) × (dispatch_step response (call second_told) ≡ some w))
pooled-calls_example =
    pooled-calls client (call second_told) 3 response until_second client-IsFresh (λ j. refl)
      undisturbed

-- A one-way request that the server answers while it is sent: the dispatch takes its context out of the
-- table, the caller returns, the context is used again, and then the dispatch tells it.
abbrev one_way : ClientConnBolt (Unit {0})
one_way =
    put 3
      (record (client.calls 3) {
        ctx = record context {
          req = record { command = record (zero_command) { proto = 1; typ = 2 }; tbconn = none };
        };
      })
      client

abbrev one_way_sending : ClientConnBolt (Unit {0})
one_way_sending = call (call (call one_way))

abbrev one_way_answered : ClientConnBolt (Unit {0})
one_way_answered = call (call (or (dispatch_step response one_way_sending) one_way_sending))

abbrev again_waiting : ClientConnBolt (Unit {0})
again_waiting = call (call (call (call (again one_way_answered))))

abbrev crossed : ClientConnBolt (Unit {0})
crossed = call (or (dispatch_step response again_waiting) again_waiting)

-- The second call returns the response to the first request.
crossed_answer :
    ((one_way_answered.calls 3).stage ≡ returned sent)
    × ((crossed.calls 3).stage ≡ returned answered)
    × ((crossed.calls 3).ctx.res.command.rid ≡ 1)
    × ((crossed.calls 3).number ≡ some 2)
unfolding invoke_at number_call after_send select receive dispatch_at dispatch dispatch_response
    deliver invoke_context assign_response is_request Response.get_request_id zero_command
    shallow_copy_to Request.set_request_id call_again acquire Response.copy_to Command.copy_to
crossed_answer = (refl, refl, refl, refl)

is_pending : find 1 waiting_client.requests ≡ some 3
unfolding invoke_at number_call after_send select receive Request.set_request_id
is_pending = refl

cleanup_pending_requests-tells_example :
    ((cleanup_pending_requests tt waiting_client).requests ≡ [])
    × (((cleanup_pending_requests tt waiting_client).calls 3).ctx.calls ≡ (some tt, none) ∷ [])
cleanup_pending_requests-tells_example =
    cleanup_pending_requests-tells client waiting_client tt 1 3 client-IsFresh (λ j. refl)
      until_waiting is_pending
