-- ===== src/Server/Serving.antt =====
-- sofabolt/server.go: `ServeConn`, by the workers of the server at once, with the pool of StateConns
-- of sofabolt/conn/stateconn/syncpool.go. A StateConn is an address; what `serveConn` does is
-- left out, and so is `closeConns`, which takes connections out of the tracked ones as well.
pub mod Owned
pub mod Tracked
use sofa_bolt_go.Base.{
  ℕ, ◌+◌, ◌≡◌, Bool, true, false, Option, none, some, List, [], ◌∷◌, ◌==◌, if◌then◌else◌,
}
use sofa_bolt_go.Pool.{mem, without}
use sofa_bolt_go.Server.Closing.{other_names}

-- Where a worker stands: before `AcquireConn`, `addConn`, the end of `serveConn`, `Close`,
-- `ReleaseConn` and `delConn`, which is another place where the connection was hijacked, and behind.
pub data Stage : Type 0 where
  arrived gone : Stage
  acquired serving closing releasing hijacked released : ℕ → Stage

-- `conns` is the tracked connections, `free` what is in the pool, and from `next` on no StateConn was
-- made yet.
pub record Serving : Type 0 where
  pub stages : ℕ → Stage
  pub conns : List ℕ
  pub free : List ℕ
  pub next : ℕ

-- What the pool gives, none for a new one, and whether the connection is hijacked.
pub record Choice : Type 0 where
  pub pooled : Option ℕ
  pub takes_over : Bool

abbrev pub set_stage : ℕ → Stage → Serving → Serving
set_stage g s w = record w { stages = λ h. if g == h then s else w.stages h }

-- `AcquireConn`: none where the pool has not what it is to give.
unfoldable pub acquire_conn : Option ℕ → ℕ → Serving → Option Serving
acquire_conn (some c) g w =
    if mem c w.free
    then some (record (set_stage g (acquired c) w) { free = without c w.free })
    else none
acquire_conn none g w = some (record (set_stage g (acquired w.next) w) { next = w.next + 1 })

unfoldable pub serve_conn_at : Choice → ℕ → Stage → Serving → Option Serving
serve_conn_at choice g arrived w = acquire_conn choice.pooled g w
serve_conn_at choice g (acquired c) w =
    some (record (set_stage g (serving c) w) { conns = c ∷ other_names c w.conns })
serve_conn_at choice g (serving c) w =
    some (set_stage g (if choice.takes_over then hijacked c else closing c) w)
serve_conn_at choice g (closing c) w = some (set_stage g (releasing c) w)
serve_conn_at choice g (releasing c) w =
    some (record (set_stage g (released c) w) { free = c ∷ w.free })
serve_conn_at choice g (hijacked c) w =
    some (record (set_stage g gone w) { conns = other_names c w.conns })
serve_conn_at choice g (released c) w =
    some (record (set_stage g gone w) { conns = other_names c w.conns })
serve_conn_at choice g gone w = some w

-- A step of the worker `g`.
abbrev pub serve_conn : Choice → ℕ → Serving → Option Serving
serve_conn choice g w = serve_conn_at choice g (w.stages g) w

pub data Run (w : Serving) : Serving → Type 0 where
  done : Run w w
  later :
      (w' w'' : Serving) (choice : Choice) (g : ℕ)
      → Run w w'
      → serve_conn choice g w' ≡ some w''
      → Run w w''
