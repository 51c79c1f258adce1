-- ===== src/Server/Closing/Shutdown.antt =====
-- What `Shutdown` returns, against the connections that it leaves.
use sofa_bolt_go.Base.{
  ℕ, ◌≡◌, refl, ◌∙◌, sym, ap, subst, Bool, true, false, not, Option, none, some, List, [], ◌∷◌,
  ◌++◌, Bool-cases, inl, inr, Option-cases,
}
use sofa_bolt_go.Server.Closing.{
  Server, Poll, close_conns, poll, poll_conns, close_listeners, shutdown,
}
use sofa_bolt_go.Server.Closing.Conns.{
  lived_of, is_empty, ShutAll, close_conns-forced, close_conns-lived, close_conns-shuts,
  close_conns-nothing,
}
use sofa_bolt_go.StateConn.{StateConn}

none_lived :
    (now : ℕ) (srv : Server) → (close_conns false now srv).0 ≡ false → lived_of now srv.conns ≡ []
none_lived now srv h = empty (lived_of now srv.conns) (sym (close_conns-lived now srv).0 ∙ h)
  where
    empty : {A : Type 0} (xs : List A) → not (is_empty xs) ≡ false → xs ≡ []
    empty [] e = refl
    empty (x ∷ xs) e = cc

false_of : (b : Bool) → not b ≡ true → b ≡ false
false_of true h = cc
false_of false h = refl

one_left :
    (now : ℕ) (srv : Server)
    → (close_conns false now srv).0 ≡ true
    → is_empty (close_conns false now srv).1.conns ≡ false
one_left now srv h =
    let (lived, left) = close_conns-lived now srv in
    ap is_empty left ∙ false_of (is_empty (lived_of now srv.conns)) (sym lived ∙ h)

module _ {E : Type 0} where
  -- What the connections of a poll come to, by what `Shutdown` returned at it.
  abbrev pub Last : Poll E → Server → Option E → Server → Type 0
  Last p before none after =
      (after.conns ≡ lived_of p.now (p.change before.conns)) × (is_empty after.conns ≡ false)
  Last p before (some e) after =
      (now : ℕ) × (closed : List (ℕ × StateConn)) × (p.done ≡ some (now, e))
      × (after.conns ≡ [])
      × (after.closed ≡ closed ++ before.closed)
      × ShutAll (p.change before.conns) closed

  abbrev pub Outcome : List (Poll E) → Server → Option (Option E) → Server → Type 0
  Outcome ps srv none after = Unit
  Outcome ps srv (some r) after =
      (qs : List (Poll E)) × (p : Poll E) × (rs : List (Poll E)) × (before : Server) × (ps
        ≡ qs ++ p ∷ rs)
      × (poll_conns qs srv ≡ (none, before))
      × Last p before r after

  abbrev found : Poll E → Server → Server
  found p srv = record srv { conns = p.change srv.conns }

  polled : Poll E → Server → Bool × Server
  polled p srv = close_conns false p.now (found p srv)

  LastOf : Poll E → Server → Option (Option E) × Server → Type 0
  LastOf p before (none, after) = Unit
  LastOf p before (some r, after) = Last p before r after

  poll_left :
      (p : Poll E) (srv : Server)
      → (polled p srv).0 ≡ true
      → poll p srv ≡ (some none, (polled p srv).1)
  unfolding poll polled
  poll_left p srv h = elim (Option-cases p.done) [
    | inl waiting ↦ rw (waiting, h) refl
    | inr (t, ended) ↦ rw (ended, h) refl
  ]

  poll_waiting :
      (p : Poll E) (srv : Server)
      → (polled p srv).0 ≡ false
      → p.done ≡ none
      → poll p srv ≡ (none, (polled p srv).1)
  unfolding poll polled
  poll_waiting p srv h waiting = rw (waiting, h) refl

  poll_ended :
      (p : Poll E) (srv : Server) (now : ℕ) (e : E)
      → (polled p srv).0 ≡ false
      → p.done ≡ some (now, e)
      → poll p srv ≡ (some (some e), (close_conns true now (polled p srv).1).1)
  unfolding poll polled
  poll_ended p srv now e h ended =
      rw (ended, h) (rw ((close_conns-forced now (polled p srv).1).0) refl)

  poll-Last : (p : Poll E) (srv : Server) → LastOf p srv (poll p srv)
  unfolding LastOf polled
  poll-Last p srv = elim (Bool-cases (polled p srv).0) [
    | inl alive ↦
        subst (LastOf p srv) (sym (poll_left p srv alive))
          ((close_conns-lived p.now (found p srv)).1, one_left p.now (found p srv) alive)
    | inr dead ↦ elim (Option-cases p.done) [
      | inl waiting ↦ subst (LastOf p srv) (sym (poll_waiting p srv dead waiting)) tt
      | inr ((now, e), ended) ↦
          let none = none_lived p.now (found p srv) dead in
          let (closed, added, shut) = close_conns-shuts p.now (found p srv) none in
          let left = (close_conns-lived p.now (found p srv)).1 ∙ none in
          subst (LastOf p srv) (sym (poll_ended p srv now e dead ended)) (
            now,
            closed,
            ended,
            (close_conns-forced now (polled p srv).1).1,
            close_conns-nothing now (polled p srv).1 left ∙ added,
            shut,
          )
    ]
  ]

  later_poll :
      (p : Poll E) (ps : List (Poll E)) (srv after : Server) (r : Option (Option E))
      → (poll p srv).0 ≡ none
      → Outcome ps (poll p srv).1 r after
      → Outcome (p ∷ ps) srv r after
  unfolding poll_conns
  later_poll p ps srv after none on h = tt
  later_poll p ps srv after (some r) on (qs, q, rs, before, split, run, last) =
      (p ∷ qs, q, rs, before, ap (λ xs. p ∷ xs) split, rw (poll_conns, on) run, last)

  poll_conns-Outcome :
      (ps : List (Poll E)) (srv : Server)
      → Outcome ps srv (poll_conns ps srv).0 (poll_conns ps srv).1
  unfolding poll_conns LastOf
  poll_conns-Outcome [] srv = tt
  poll_conns-Outcome (p ∷ ps) srv = elim (Option-cases (poll p srv).0) [
    | inr (r, ended) ↦
        rw (poll_conns, ended)
          (
            [],
            p,
            ps,
            srv,
            refl,
            refl,
            subst (LastOf p srv) (ap (λ x. (x, (poll p srv).1)) ended) (poll-Last p srv),
          )
    | inl on ↦
        rw (poll_conns, on)
          (later_poll p ps srv (poll_conns ps (poll p srv).1).1 (poll_conns ps (poll p srv).1).0 on
            (poll_conns-Outcome ps (poll p srv).1))
  ]

  -- Where no listener fails to close, for any behaviour of the connections between the polls: if
  -- `Shutdown` returns, it does so at one of the polls, behind others at which it went on. If it returns
  -- no error, there is a connection that this poll counts as alive, and exactly these are left, as they
  -- were. If it returns an error, it is the error of the context at this poll, no connection is left, and
  -- `Close` was called on every connection that the poll found.
  pub shutdown-Outcome :
      (result : ℕ → Option E) (ps : List (Poll E)) (srv : Server)
      → (close_listeners result srv).0 ≡ none
      → Outcome ps
          (close_listeners result srv).1
          (shutdown result ps srv).0
          (shutdown result ps srv).1
  unfolding shutdown
  shutdown-Outcome result ps srv h = rw h (poll_conns-Outcome ps (close_listeners result srv).1)
