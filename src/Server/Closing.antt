-- ===== src/Server/Closing.antt =====
-- sofabolt/server.go: the listeners and connections of a server, and its shutdown. Connections are
-- listed by a name of theirs; the map's order is that of the list.
pub mod Conns
pub mod Shutdown
use sofa_bolt_go.Base.{
  ℕ, ◌+◌, Bool, true, false, not, ◌&&◌, Option, none, some, List, [], ◌∷◌, ◌++◌, ltb, ◌==◌,
  if◌then◌else◌,
}
use sofa_bolt_go.StateConn
use sofa_bolt_go.StateConn.{StateConn, state_new, state_idle, get_state}

-- `closed` is the connections that were closed and taken out.
pub record Server : Type 0 where
  pub listeners : List ℕ
  pub conns : List (ℕ × StateConn)
  pub closed : List (ℕ × StateConn)

abbrev pub conn_idle_threshold : ℕ
conn_idle_threshold = 5

-- The entries of other names.
abbrev pub others : {A : Type 0} → ℕ → List (ℕ × A) → List (ℕ × A)
others n [] = []
others n ((m, a) ∷ xs) = let rest = others n xs in if m == n then rest else (m, a) ∷ rest

abbrev pub other_names : ℕ → List ℕ → List ℕ
other_names n [] = []
other_names n (m ∷ xs) = let rest = other_names n xs in if m == n then rest else m ∷ rest

unfoldable pub add_listener : ℕ → Server → Server
add_listener ln srv = record srv { listeners = ln ∷ other_names ln srv.listeners }

unfoldable pub del_listener : ℕ → Server → Server
del_listener ln srv = record srv { listeners = other_names ln srv.listeners }

unfoldable pub add_conn : ℕ → StateConn → Server → Server
add_conn n c srv = record srv { conns = (n, c) ∷ others n srv.conns }

unfoldable pub del_conn : ℕ → Server → Server
del_conn n srv = record srv { conns = others n srv.conns }

-- The two tests of `closeConns` on the state: the connection is left alone.
unfoldable pub is_lived : ℕ → StateConn → Bool
is_lived now c =
    let (lasted, st) = get_state c in
    let old = ltb (lasted + conn_idle_threshold) now in
    let st = if st == state_new && old then state_idle else st in not (st == state_idle) && old

-- The raw connection is closed first, unless by force.
unfoldable pub shut : Bool → ℕ → StateConn → StateConn
shut force now c = StateConn.close now (if force then c else record c { closes = c.closes + 1 })

-- The loop of `closeConns`: whether one is left, those left, and those closed.
unfoldable pub close_each :
    Bool → ℕ → List (ℕ × StateConn) → Bool × List (ℕ × StateConn) × List (ℕ × StateConn)
close_each force now [] = (false, [], [])
close_each force now ((n, c) ∷ cs) =
    let (lived, left, closed) = close_each force now cs in
    if not force && is_lived now c
    then (true, (n, c) ∷ left, closed)
    else (lived, left, (n, shut force now c) ∷ closed)

unfoldable pub close_conns : Bool → ℕ → Server → Bool × Server
close_conns force now srv =
    let (lived, left, closed) = close_each force now srv.conns in
    (lived, record srv { conns = left; closed = closed ++ srv.closed })

-- `cerr != nil && err == nil`, and the error from then on.
abbrev pub is_first_error {ℓ} : {E : Type ℓ} → Option E → Option E → Bool
is_first_error (some cerr) none = true
is_first_error (some cerr) (some err) = false
is_first_error none err = false

abbrev pub first_error {ℓ} : {E : Type ℓ} → Option E → Option E → Option E
first_error cerr none = cerr
first_error cerr (some err) = some err

-- `result` is the error of a listener's Close.
module _ {E : Type 0} (result : ℕ → Option E) where
  -- The loop of `closeListeners`, with the error so far: the error, and the listeners left.
  unfoldable pub close_listeners_loop : Option E → List ℕ → Option E × List ℕ
  close_listeners_loop err [] = (err, [])
  close_listeners_loop err (ln ∷ lns) =
      let (e, left) = close_listeners_loop (first_error (result ln) err) lns in
      if is_first_error (result ln) err then (e, ln ∷ left) else (e, left)

  unfoldable pub close_listeners : Server → Option E × Server
  close_listeners srv =
      let (err, left) = close_listeners_loop none srv.listeners in
      (err, record srv { listeners = left })

-- A turn of the loop of `Shutdown`: what the connections did since the last one, the time, and the
-- context's error and the time then if it is done.
pub record Poll (E : Type 0) : Type 0 where
  pub change : List (ℕ × StateConn) → List (ℕ × StateConn)
  pub now : ℕ
  pub done : Option (ℕ × E)

module _ {E : Type 0} where
  -- One turn: `none` to go on.
  unfoldable pub poll : Poll E → Server → Option (Option E) × Server
  poll p srv = go p.done
    where
      polled : Bool × Server
      polled = close_conns false p.now (record srv { conns = p.change srv.conns })

      forced : E → Bool × Server → Option (Option E) × Server
      forced e (lived, srv') = (if lived then some none else some (some e), srv')

      go : Option (ℕ × E) → Option (Option E) × Server
      go (some (now, e)) =
          if polled.0 then (some none, polled.1) else forced e (close_conns true now polled.1)
      go none = if polled.0 then (some none, polled.1) else (none, polled.1)

  -- `none` while it polls.
  unfoldable pub poll_conns : List (Poll E) → Server → Option (Option E) × Server
  poll_conns [] srv = (none, srv)
  poll_conns (p ∷ ps) srv = elim ((poll p srv).0) [
    | some r ↦ (some r, (poll p srv).1)
    | none ↦ poll_conns ps (poll p srv).1
  ]

  unfoldable pub shutdown : (ℕ → Option E) → List (Poll E) → Server → Option (Option E) × Server
  shutdown result polls srv = go (close_listeners result srv)
    where
      go : Option E × Server → Option (Option E) × Server
      go (some err, srv') = (some (some err), srv')
      go (none, srv') = poll_conns polls srv'
