-- ===== src/ClientConn.antt =====
-- sofabolt/clinetconn.go: a connection of a client that reads commands, tells what it does by its
-- status, and dials again when it breaks. What the decoder, the dialer and the callers of `Close` do
-- is an input; so is where in the loop a `Close` falls.
pub mod Status
pub mod Changes
pub mod Redialing
pub mod Ending
use sofa_bolt_go.Base.{
  ℕ, zero, suc, Bool, true, false, not, ◌||◌, Option, none, some, List, [], ◌∷◌, ◌==◌,
  if◌then◌else◌,
}

-- `ClientConnStatus`.
abbrev pub status_idle : ℕ
status_idle = 0

abbrev pub status_connecting : ℕ
status_connecting = 1

abbrev pub status_read_timeout : ℕ
status_read_timeout = 2

abbrev pub status_active : ℕ
status_active = 3

abbrev pub status_transient_failure : ℕ
status_transient_failure = 4

abbrev pub status_shutdown : ℕ
status_shutdown = 5

-- A net.Conn by a name, and whether it is an errorconn.
pub record Link : Type 0 where
  pub name : ℕ
  pub is_error : Bool

-- What `Decode` returns, and `Dispatch` is given.
pub data Outcome (E C : Type 0) : Type 0 where
  command : C → Outcome E C
  broken : E → Outcome E C

-- `changes` is what a status changer is told, `dispatched` what the dispatcher is, and
-- `closed_links` the connections on which Close was called, each with the last first.
pub record ClientConn (E C : Type 0) : Type 0 where
  pub status : ℕ  -- uint32
  pub closed : Bool
  pub has_dialer : Bool
  pub conn : Link
  pub changes : List (ℕ × ℕ)
  pub dispatched : List (Outcome E C)
  pub closed_links : List ℕ

-- One call of `Decode`: whether a `Close` came before it, how often it read the connection, each
-- time with its deadline set, and what it returned.
pub record Read (E C : Type 0) : Type 0 where
  pub closing : Bool
  pub hooks : ℕ
  pub outcome : Outcome E C

-- One turn of `redial`: whether a `Close` came before its test of `closed`, what was dialed, and
-- whether a `Close` came behind the test.
pub record Attempt : Type 0 where
  pub closing : Bool
  pub dialed : Option Link
  pub closing_late : Bool

-- One call of `mayRedial`: whether a `Close` came before it, the turns of `redial`, and whether the
-- writer for the new connection fails.
pub record Redial : Type 0 where
  pub closing : Bool
  pub attempts : List Attempt
  pub build_error : Bool

-- How `mayRedial` ends: it goes on dialing, there is no new connection, or there is one.
pub data Redialed : Type 0 where
  dialing refused : Redialed
  connected : Link → Redialed

module _ {E C : Type 0} where
  unfoldable pub on_status_change : ℕ → ClientConn E C → ClientConn E C
  on_status_change to x =
      if x.status == to then x else record x { status = to; changes = (x.status, to) ∷ x.changes }

  abbrev pub dispatch : Outcome E C → ClientConn E C → ClientConn E C
  dispatch o x = record x { dispatched = o ∷ x.dispatched }

  abbrev pub close_link : Link → ClientConn E C → ClientConn E C
  close_link l x = record x { closed_links = l.name ∷ x.closed_links }

  -- `Close`, which returns ErrClientWasClosed the second time.
  unfoldable pub close : ClientConn E C → Bool × ClientConn E C
  close x = if x.closed then (false, x) else (true, close_link x.conn (record x { closed = true }))

  abbrev pub close_if : Bool → ClientConn E C → ClientConn E C
  close_if closing x = if closing then (close x).1 else x

  -- `polyfill`, with the connection given, or what the dialer gives: none for its error.
  -- The result is none for an error.
  unfoldable pub polyfill :
      Option Link → Option Link → Bool → ClientConn E C → Option (ClientConn E C)
  polyfill given dialed build_error x = go given dialed
    where
      idle : ClientConn E C
      idle = on_status_change status_idle x

      connecting : ClientConn E C
      connecting = on_status_change status_connecting idle

      go : Option Link → Option Link → Option (ClientConn E C)
      go (some l) _ = if build_error then none else some (record idle { conn = l })
      go none (some l) = if not x.has_dialer then none else some (record connecting { conn = l })
      go none none =
          if not x.has_dialer
          then none
          else some (record connecting { conn = record { name = 0; is_error = true } })

  -- `beforeread`, as often as it ran.
  unfoldable pub before_reads : ℕ → ClientConn E C → ClientConn E C
  before_reads zero x = x
  before_reads (suc n) x = before_reads n (on_status_change status_active x)

  -- The loop over the turns of `redial`.
  unfoldable pub redial_loop : List Attempt → ClientConn E C → Redialed × ClientConn E C
  redial_loop [] x = (dialing, x)
  redial_loop (a ∷ more) x =
      let x' = close_if a.closing x in
      if x'.closed then (refused, x') else elim (a.dialed) [
        | some l ↦ (connected l, close_if a.closing_late x')
        | none ↦ redial_loop more (close_if a.closing_late x')
      ]

  -- The test for a dialer is that of `mayRedial` once more.
  unfoldable pub redial : List Attempt → ClientConn E C → Redialed × ClientConn E C
  redial attempts x =
      if not x.has_dialer
      then (refused, x)
      else redial_loop attempts (on_status_change status_connecting x)

  unfoldable pub may_redial : Redial → ClientConn E C → Redialed × ClientConn E C
  may_redial r x =
      let x' = close_if r.closing x in
      if x'.closed || not x'.has_dialer then (refused, x') else redial r.attempts x'

  -- The new connection in place of the old one.
  unfoldable pub replace : Link → ClientConn E C → ClientConn E C
  replace l x = on_status_change status_active (record (close_link x.conn x) { conn = l })

  -- The end of `doread`, with its deferred change.
  unfoldable pub finish : ClientConn E C → ClientConn E C
  finish x = on_status_change status_shutdown (close_link x.conn x)

  -- What follows `mayRedial`, and whether `doread` ends, goes on, or dials.
  unfoldable pub behind_redial : Bool → Redialed × ClientConn E C → Option Bool × ClientConn E C
  behind_redial failing (dialing, x) = (none, x)
  behind_redial failing (refused, x) = (some true, finish x)
  behind_redial failing (connected l, x) =
      if failing then (some true, finish x) else (some false, replace l x)

  -- What follows a broken loop.
  unfoldable pub after_break : Redial → ClientConn E C → Option Bool × ClientConn E C
  after_break r x =
      behind_redial r.build_error (may_redial r (on_status_change status_transient_failure x))

-- `is_deadline_error` is `IsDeadlineError`, on the errors of the connection.
module _ {E C : Type 0} (is_deadline_error : E → Bool) where
  -- What the loop does with what was decoded, and whether it breaks.
  unfoldable pub decoded : Outcome E C → ClientConn E C → Bool × ClientConn E C
  decoded (command c) x = (false, dispatch (command c) x)
  decoded (broken e) x =
      if x.conn.is_error
      then (true, dispatch (broken e) x)
      else if is_deadline_error e
      then (false, on_status_change status_read_timeout x)
      else (true, dispatch (broken e) x)

  -- A turn of the read loop.
  unfoldable pub read : Read E C → ClientConn E C → Bool × ClientConn E C
  read r x = decoded r.outcome (before_reads r.hooks (close_if r.closing x))

  -- The read loop, and whether it broke.
  unfoldable pub read_loop : List (Read E C) → ClientConn E C → Bool × ClientConn E C
  read_loop [] x = (false, x)
  read_loop (r ∷ rs) x = elim ((read r x).0) [
    | true ↦ (true, (read r x).1)
    | false ↦ read_loop rs (read r x).1
  ]

  -- `doread` behind its first change of status, on rounds of reads and a redial: whether it ended.
  unfoldable pub doread_loop :
      List (List (Read E C) × Redial) → ClientConn E C → Bool × ClientConn E C
  doread_loop [] x = (false, x)
  doread_loop ((rs, r) ∷ more) x = elim ((read_loop rs x).0) [
    | false ↦ (false, (read_loop rs x).1)
    | true ↦ elim ((after_break r (read_loop rs x).1).0) [
      | none ↦ (false, (after_break r (read_loop rs x).1).1)
      | some true ↦ (true, (after_break r (read_loop rs x).1).1)
      | some false ↦ doread_loop more (after_break r (read_loop rs x).1).1
    ]
  ]

  unfoldable pub doread : List (List (Read E C) × Redial) → ClientConn E C → Bool × ClientConn E C
  doread rounds x = doread_loop rounds (on_status_change status_active x)
