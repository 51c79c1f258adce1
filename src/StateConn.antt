-- ===== src/StateConn.antt =====
-- sofabolt/conn/stateconn: a connection that keeps its state and the time of the last change in one
-- int64, here the 64 bits of it. Times are Unix seconds.
pub mod Packed
use sofa_bolt_go.Base.{ℕ, ◌+◌, ◌*◌, ◌/◌, ◌%◌, ◌^◌, ltb, ◌==◌, if◌then◌else◌}
use Prim.Native.Nat.{bit_and, bit_or}

abbrev pub state_new : ℕ
state_new = 0

abbrev pub state_active : ℕ
state_active = 1

abbrev pub state_idle : ℕ
state_idle = 2

abbrev pub state_hijacked : ℕ
state_hijacked = 3

abbrev pub state_closed : ℕ
state_closed = 4

-- `closes` is the number of calls of the connection's own Close.
pub record StateConn : Type 0 where
  pub state : ℕ  -- int64
  pub closes : ℕ

unfoldable pub pack_state : ℕ → ℕ → ℕ
pack_state now state = bit_or (now * 256 % 2 ^ 64) state

-- `i64>>8`, which keeps the sign.
abbrev pub shift_right : ℕ → ℕ
shift_right v = if ltb v (2 ^ 63) then v / 256 else v / 256 + 255 * 2 ^ 56

unfoldable pub set_state : ℕ → ℕ → StateConn → StateConn
set_state now state s = record s { state = pack_state now state }

-- The time and the state.
unfoldable pub get_state : StateConn → ℕ × ℕ
get_state s = (shift_right s.state, bit_and s.state 255)

-- `Read` and `Write` before what the connection does.
unfoldable pub touch : ℕ → StateConn → StateConn
touch now s = set_state now state_active s

unfoldable pub close : ℕ → StateConn → StateConn
close now s =
    let s' = set_state now state_closed s in
    if (get_state s).1 == state_closed then s else record s' { closes = s'.closes + 1 }

-- `AcquireConn`, of a fresh or a pooled object.
unfoldable pub acquire_conn : ℕ → StateConn → StateConn
acquire_conn now s = record (set_state now state_new s) { closes = 0 }
