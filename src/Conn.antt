-- ===== src/Conn.antt =====
-- sofabolt/conn/errorconn, sofabolt/conn/metricconn and sofabolt/conn/asyncwriteconn: connections over
-- connections. The connection below is a parameter, by what its methods do to its state. The options
-- of the asynchronous writer, `File` and `SyscallConn` are left out.
pub mod Delay
pub mod Bytewise
use sofa_bolt_go.Base.{ℕ, ◌+◌, Bool, true, false, Option, none, some, List, [], ◌∷◌, Bytes}

-- `Read` by the length of the buffer, `Write`, `Close`, the addresses, and the three deadlines.
pub record Conn (S E A : Type 0) : Type 0 where
  pub read : ℕ → S → Bytes × Option E × S
  pub write : Bytes → S → ℕ × Option E × S
  pub close : S → Option E × S
  pub local_addr : S → A
  pub remote_addr : S → A
  pub set_deadline : ℕ → S → Option E × S
  pub set_read_deadline : ℕ → S → Option E × S
  pub set_write_deadline : ℕ → S → Option E × S

-- A connection beside a state of its own, each method that of the connection.
module _ {S T E A : Type 0} (c : Conn S E A) where
  abbrev pub beside : T → Option E × S → Option E × (T × S)
  beside t (e, s) = (e, (t, s))

  abbrev pub beside_read : T → Bytes × Option E × S → Bytes × Option E × (T × S)
  beside_read t (bs, e, s) = (bs, e, (t, s))

  abbrev pub beside_write : T → ℕ × Option E × S → ℕ × Option E × (T × S)
  beside_write t (n, e, s) = (n, e, (t, s))

  abbrev pub delegate : Conn (T × S) E A
  delegate = record {
    read = λ n (t, s). beside_read t (c.read n s);
    write = λ bs (t, s). beside_write t (c.write bs s);
    close = λ (t, s). beside t (c.close s);
    local_addr = λ (t, s). c.local_addr s;
    remote_addr = λ (t, s). c.remote_addr s;
    set_deadline = λ at (t, s). beside t (c.set_deadline at s);
    set_read_deadline = λ at (t, s). beside t (c.set_read_deadline at s);
    set_write_deadline = λ at (t, s). beside t (c.set_write_deadline at s);
  }

-- errorconn: the error that it was made with, and the empty address.
unfoldable pub error_conn : {E A : Type 0} → A → E → Conn (Unit {0}) E A
error_conn empty err = record {
  read = λ n s. ([], some err, s);
  write = λ bs s. (0, some err, s);
  close = λ s. (some err, s);
  local_addr = λ s. empty;
  remote_addr = λ s. empty;
  set_deadline = λ at s. (some err, s);
  set_read_deadline = λ at s. (some err, s);
  set_write_deadline = λ at s. (some err, s);
}

-- metricconn: counters beside the connection, with times in seconds.
pub record MetricConn : Type 0 where
  pub lasted : ℕ
  pub created : ℕ
  pub used : ℕ

unfoldable pub new_metric : ℕ → MetricConn
new_metric now = record { lasted = now; created = now; used = 1 }

-- With the count of reused connections of the package.
unfoldable pub incr_used : ℕ → ℕ × MetricConn → ℕ × MetricConn
incr_used now (reused, m) = (reused + 1, record m { used = m.used + 1; lasted = now })

abbrev pub metric_conn : {S E A : Type 0} → Conn S E A → Conn (MetricConn × S) E A
metric_conn c = delegate c

-- The asynchronous writer is not part of the repository.
pub record AsyncWriter (W E : Type 0) : Type 0 where
  pub write : Bytes → W → ℕ × Option E × W
  pub close : W → Option E × W

-- asyncwriteconn: writes go to the writer, whose error at the end is discarded.
module _ {S W E A : Type 0} (aw : AsyncWriter W E) (c : Conn S E A) where
  abbrev written_beside : S → ℕ × Option E × W → ℕ × Option E × (W × S)
  written_beside s (n, e, w) = (n, e, (w, s))

  unfoldable pub async_conn : Conn (W × S) E A
  async_conn = record (delegate c) {
    write = λ bs (w, s). written_beside s (aw.write bs w);
    close = λ (w, s). beside c (aw.close w).1 (c.close s);
  }
