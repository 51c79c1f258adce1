-- ===== src/Tests/Serving.antt =====
-- The theorems on the server at one connection with two requests.
use sofa_bolt_go.Base.{ℕ, ◌≡◌, refl, arith, false, Option, none, List, [], ◌∷◌, Bytes, length}
use sofa_bolt_go.Command.{zero_command}
use sofa_bolt_go.Request
use sofa_bolt_go.Request.{Request}
use sofa_bolt_go.Response.{Response}
use sofa_bolt_go.ResponseWriter.{SofaResponseWriter}
use sofa_bolt_go.Server.{
  edit, write_response, Handler, Conn, Options, Input, got, broken, Hook, handle_command_sync,
  serve_loop,
}
use sofa_bolt_go.Server.Responses.{writes, Answer}
use sofa_bolt_go.Server.Answers.{handle_command_sync-Answer}
use sofa_bolt_go.Server.Session.{Session}
use sofa_bolt_go.Server.Loop.{serve_loop-Session}
use sofa_bolt_go.Server.Flush.{flush_each, flush_each-flushes}
use sofa_bolt_go.Tests.Reader.{bytes_reader, bytes_reader-IsDocumented}

abbrev encode : Option ℕ → Option (Unit {0}) × Bytes
encode id = (none, [])

abbrev accept : List Bytes → Bytes → ℕ × Option (Unit {0})
accept out bs = (length bs, none)

abbrev request : ℕ → Request
request rid = record {
  command = record (zero_command) { proto = 1; typ = 1; cmdcode = 1; rid = rid };
  tbconn = none;
}

-- It sets a status and writes, and tries once more.
abbrev set_status : Response → Response
set_status r = record r { command = record (r.command) { status = 7 } }

abbrev handler : Handler
handler req = edit set_status ∷ write_response ∷ write_response ∷ []

abbrev writer : SofaResponseWriter (Unit {0})
writer = record {
  id = 1;
  out = [];
  numwrite = 0;
  res = record { command = zero_command; tbconn = none };
  err = none;
  hijacked = false;
}

abbrev conn : Conn (Unit {0})
conn = record {
  rw = writer;
  last_flush_time = 0;
  flushes = 0;
  metrics = record { bytes_read = 0; bytes_write = 0; commands = 0 };
  spawned = [];
}

abbrev hook : Hook (Unit {0})
hook = record { buffered = false; now = 1; deadline_error = none; flush_error = none }

abbrev inputs : List (Input (Unit {0}))
inputs = got (hook ∷ []) 20 (request 5) 2 none ∷ got [] 20 (request 6) 3 none ∷ broken [] tt ∷ []

abbrev sync : Options
sync = record { flush_interval = 0; async = false }

serve_loop-Session_example :
    Session handler inputs []
      (serve_loop bytes_reader encode accept sync handler inputs conn).0
      (serve_loop bytes_reader encode accept sync handler inputs conn).1.rw.out
unfolding zero_command
serve_loop-Session_example =
    serve_loop-Session bytes_reader bytes_reader-IsDocumented encode accept (λ out bs. refl) sync
      refl handler (λ req. ((λ r. (refl, refl, refl)), tt)) inputs conn (refl, (refl, tt)) refl

handle_command_sync-Answer_example :
    ((handle_command_sync bytes_reader encode accept handler
        (request 5)
        (writer, conn.metrics)).0.res.command.typ
      ≡ 0)
    × Answer
        (writes (handler (request 5)))
        (request 5).command.proto
        (Request.get_request_id (request 5))
        writer.out
        (handle_command_sync bytes_reader encode accept handler
          (request 5)
          (writer, conn.metrics)).0.out
unfolding zero_command
handle_command_sync-Answer_example =
    handle_command_sync-Answer bytes_reader bytes_reader-IsDocumented encode accept (λ out bs. refl)
      handler (request 5) writer conn.metrics refl refl refl ((λ r. (refl, refl, refl)), tt)

-- Three flushes asked for within an interval of ten each.
abbrev slow : Options
slow = record { flush_interval = 10; async = false }

abbrev calls : List (ℕ × Option (Unit {0}))
calls = (5, none) ∷ (10, none) ∷ (15, none) ∷ []

flush_each-flushes_example : (flush_each slow calls conn).flushes ≡ 0
flush_each-flushes_example =
    flush_each-flushes slow calls conn (omega arith) (omega arith, (omega arith, (omega arith, tt)))
