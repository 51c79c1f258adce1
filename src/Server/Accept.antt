-- ===== src/Server/Accept.antt =====
-- sofabolt/server.go: `Serve`, the loop that accepts connections. Times are milliseconds.
pub mod Delay
use sofa_bolt_go.Base.{ℕ, ◌*◌, Option, none, some, List, [], ◌∷◌, ltb, ◌==◌, if◌then◌else◌}
use sofa_bolt_go.Server.Closing.{Server, add_listener, del_listener}

-- What Accept returns: a temporary error, another error, or a connection and whether the pool of
-- workers takes it.
pub data Accepted (E : Type 0) : Type 0 where
  temporary broken : E → Accepted E
  workers_take workers_full : ℕ → Accepted E

-- What `onhandler` is told.
pub data Event (E : Type 0) : Type 0 where
  temporary_accept : E → Event E
  worker_pool_overflow : ℕ → Event E

-- `slept` and `events` have the last first, and so have the connections given to the workers.
pub record Accepting (E : Type 0) : Type 0 where
  pub delay : ℕ
  pub slept : List ℕ
  pub events : List (Event E)
  pub taken : List ℕ

abbrev pub max_delay : ℕ
max_delay = 1000

unfoldable pub next_delay : ℕ → ℕ
next_delay delay =
    let delay = if delay == 0 then 5 else delay * 2 in
    if ltb max_delay delay then max_delay else delay

module _ {E : Type 0} where
  -- The loop, and the error that it ends with.
  unfoldable pub accept_loop : List (Accepted E) → Accepting E → Option E × Accepting E
  accept_loop [] a = (none, a)
  accept_loop (temporary e ∷ more) a =
      let delay = next_delay a.delay in
      accept_loop more (record a {
        delay = delay;
        slept = delay ∷ a.slept;
        events = temporary_accept e ∷ a.events;
      })
  accept_loop (broken e ∷ more) a = (some e, a)
  accept_loop (workers_take c ∷ more) a = accept_loop more (record a { taken = c ∷ a.taken })
  accept_loop (workers_full c ∷ more) a =
      accept_loop more (record a { events = worker_pool_overflow c ∷ a.events })

  -- `Serve`: the listener is known while the loop runs.
  unfoldable pub serve : ℕ → List (Accepted E) → Server → Option E × Accepting E × Server
  serve ln outcomes srv =
      let start : Accepting E = record { delay = 0; slept = []; events = []; taken = [] } in
      let srv' = add_listener ln srv in
      let (err, a) = accept_loop outcomes start in
      (err, a, elim err [ none ↦ srv' | some e ↦ del_listener ln srv' ])
