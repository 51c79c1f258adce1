-- ===== src/Tests/Connections.antt =====
-- The theorems on connections: their states, the shutdown of a server, and a client's own.
use sofa_bolt_go.Base.{ℕ, ◌≡◌, refl, Bool, true, false, Option, none, some, List, [], ◌∷◌, ltb}
use sofa_bolt_go.StateConn.{StateConn, touch}
use sofa_bolt_go.Server.Closing.{Server, Poll, close_listeners, close_listeners_loop, shutdown}
use sofa_bolt_go.Server.Closing.Shutdown.{Outcome, shutdown-Outcome}
use sofa_bolt_go.Server.Accept.{Accepted, temporary, broken, workers_take, serve}
use sofa_bolt_go.Server.Accept.Delay.{AreWithin, serve-slept}
use sofa_bolt_go.ClientConn
use sofa_bolt_go.ClientConn.{ClientConn, Link, Read, Redial, doread, polyfill, on_status_change}
use sofa_bolt_go.ClientConn.Status.{HasChain}
use sofa_bolt_go.ClientConn.Changes.{doread-polyfill-HasChain}
use sofa_bolt_go.ClientConn.Ending.{Ended, has_failing, doread-Ended}

abbrev fresh : StateConn
fresh = record { state = 0; closes = 0 }

-- One connection used at 100, and one at 107.
abbrev server : Server
server = record {
  listeners = 1 ∷ [];
  conns = (1, touch 100 fresh) ∷ (2, touch 107 fresh) ∷ [];
  closed = [];
}

abbrev result : ℕ → Option ℕ
result ln = none

abbrev polls : List (Poll ℕ)
polls =
    record { change = λ cs. cs; now = 101; done = none }
    ∷ record { change = λ cs. []; now = 111; done = some (112, 9) }
    ∷ []

shutdown-Outcome_example :
    Outcome polls
      (close_listeners result server).1
      (shutdown result polls server).0
      (shutdown result polls server).1
unfolding close_listeners close_listeners_loop
shutdown-Outcome_example = shutdown-Outcome result polls server refl

abbrev accepts : List (Accepted ℕ)
accepts = temporary 1 ∷ temporary 1 ∷ workers_take 7 ∷ temporary 1 ∷ broken 2 ∷ []

serve-slept_example :
    ((serve 3 accepts server).1.slept ≡ 20 ∷ 10 ∷ 5 ∷ [])
    × AreWithin (serve 3 accepts server).1.slept
serve-slept_example = serve-slept 3 accepts server

-- A client that dials: a command, a timeout and an error are read, then a second connection is
-- dialed and read until its client is closed.
abbrev first_link : Link
first_link = record { name = 1; is_error = false }

abbrev second_link : Link
second_link = record { name = 2; is_error = false }

abbrev unopened : ClientConn ℕ ℕ
unopened = record {
  status = 0;
  closed = false;
  has_dialer = true;
  conn = record { name = 0; is_error = true };
  changes = [];
  dispatched = [];
  closed_links = [];
}

abbrev opened : ClientConn ℕ ℕ
opened = record unopened { status = 1; conn = first_link; changes = (0, 1) ∷ [] }

abbrev rounds : List (List (Read ℕ ℕ) × Redial)
rounds =
    (
      record { closing = false; hooks = 2; outcome = ClientConn.command 5 }
          ∷ record { closing = false; hooks = 1; outcome = ClientConn.broken 0 }
          ∷ record { closing = false; hooks = 1; outcome = ClientConn.broken 8 }
          ∷ [],
      record {
        closing = false;
        attempts =
            record { closing = false; dialed = none; closing_late = false }
            ∷ record { closing = false; dialed = some second_link; closing_late = false }
            ∷ [];
        build_error = false;
      },
    )
    ∷ (
      record { closing = true; hooks = 0; outcome = ClientConn.broken 8 } ∷ [],
      record { closing = false; attempts = []; build_error = false },
    )
    ∷ []

abbrev is_zero : ℕ → Bool
is_zero e = ltb e 1

is_opened : polyfill none (some first_link) false unopened ≡ some opened
unfolding polyfill on_status_change
is_opened = refl

doread-polyfill-HasChain_example : HasChain (doread is_zero rounds opened).1
doread-polyfill-HasChain_example =
    doread-polyfill-HasChain is_zero rounds none (some first_link) false unopened opened refl refl
      is_opened

doread-Ended_example : Ended (has_failing rounds) (doread is_zero rounds opened)
doread-Ended_example = doread-Ended is_zero rounds opened
