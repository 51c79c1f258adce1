-- ===== src/Conn/Delay.antt =====
-- sofabolt/conn/delayconn/delayconn.go: connections that sleep, and connections that write byte by byte.
-- `slept` is the time slept so far. `OneByteReadConn` is left out.
use sofa_bolt_go.Base.{ℕ, ◌+◌, Option, none, some, [], ◌∷◌, Bytes, ltb, if◌then◌else◌}
use sofa_bolt_go.Conn.{Conn, delegate, beside_read, beside_write}

-- `time.Sleep`, if there is a delay.
abbrev pub sleep : ℕ → ℕ → ℕ
sleep delay slept = if ltb 0 delay then slept + delay else slept

module _ {S E A : Type 0} (delay : ℕ) (c : Conn S E A) where
  unfoldable pub read_delay_conn : Conn (ℕ × S) E A
  read_delay_conn = record (delegate c) {
    read = λ n (slept, s). beside_read c (sleep delay slept) (c.read n s);
  }

  unfoldable pub write_delay_conn : Conn (ℕ × S) E A
  write_delay_conn = record (delegate c) {
    write = λ bs (slept, s). beside_write c (sleep delay slept) (c.write bs s);
  }

  unfoldable pub delay_conn : Conn (ℕ × S) E A
  delay_conn = record (delegate c) {
    read = λ n (slept, s). beside_read c (sleep delay slept) (c.read n s);
    write = λ bs (slept, s). beside_write c (sleep delay slept) (c.write bs s);
  }

  -- Behind the write of one byte: an error is returned with what this write took, not with the sum.
  abbrev pub go_on :
      (ℕ → ℕ × S → ℕ × Option E × (ℕ × S)) → ℕ → ℕ → ℕ × Option E × S → ℕ × Option E × (ℕ × S)
  go_on rest n slept (nw, none, s) = rest (n + nw) (slept, s)
  go_on rest n slept (nw, some e, s) = (nw, some e, (slept, s))

  -- The loop of `PerWriteDelayConn.Write`, `n` written so far.
  unfoldable pub write_each : Bytes → ℕ → ℕ × S → ℕ × Option E × (ℕ × S)
  write_each [] n (slept, s) = (n, none, (slept, s))
  write_each (b ∷ bs) n (slept, s) = go_on (write_each bs) n (slept + delay) (c.write (b ∷ []) s)

  unfoldable pub per_write_delay_conn : Conn (ℕ × S) E A
  per_write_delay_conn = record (delegate c) {
    write = λ bs (slept, s).
        if ltb 0 delay then write_each bs 0 (slept, s) else beside_write c slept (c.write bs s);
  }

module _ {S E A : Type 0} (c : Conn S E A) where
  -- `oneByteWriter.Write`.
  unfoldable pub write_one : Bytes → S → ℕ × Option E × S
  write_one [] s = (0, none, s)
  write_one (b ∷ bs) s = c.write (b ∷ []) s

  unfoldable pub one_byte_write_conn : Conn S E A
  one_byte_write_conn = record c { write = write_one }
