-- ===== src/Server/Closing/Conns.antt =====
-- What `closeConns` leaves.
use sofa_bolt_go.Base.{
  ℕ, ◌+◌, ◌^◌, ◌<◌, ltb, arith, ◌≡◌, refl, ap, Bool, true, false, not, List, [], ◌∷◌, ◌++◌,
  Bool-cases, inl, inr, if◌then◌else◌,
}
use sofa_bolt_go.StateConn
use sofa_bolt_go.StateConn.{StateConn, touch, set_state, state_active}
use sofa_bolt_go.StateConn.Packed.{get_state-set_state}
use sofa_bolt_go.Server.Closing.{Server, is_lived, shut, close_each, close_conns}

-- The connections that count as alive.
abbrev pub lived_of : ℕ → List (ℕ × StateConn) → List (ℕ × StateConn)
lived_of now [] = []
lived_of now ((n, c) ∷ cs) =
    let rest = lived_of now cs in if is_lived now c then (n, c) ∷ rest else rest

abbrev pub is_empty : {A : Type 0} → List A → Bool
is_empty [] = true
is_empty (x ∷ xs) = false

close_each-forced :
    (now : ℕ) (cs : List (ℕ × StateConn))
    → ((close_each true now cs).0 ≡ false) × ((close_each true now cs).1 ≡ [])
unfolding close_each
close_each-forced now [] = (refl, refl)
close_each-forced now ((n, c) ∷ cs) = close_each-forced now cs

close_each-lived :
    (now : ℕ) (cs : List (ℕ × StateConn))
    → ((close_each false now cs).0 ≡ not (is_empty (lived_of now cs)))
      × ((close_each false now cs).1 ≡ lived_of now cs)
unfolding close_each
close_each-lived now [] = (refl, refl)
close_each-lived now ((n, c) ∷ cs) =
    let (some_left, left) = close_each-lived now cs in
    elim (Bool-cases (is_lived now c)) [
      | inl alive ↦
          rw (close_each, alive) (refl, ap (λ (t : List (ℕ × StateConn)). (n, c) ∷ t) left)
      | inr dead ↦ rw (close_each, dead) (some_left, left)
    ]

-- The second list is the connections of the first by name, on each of which `Close` was called.
abbrev pub ShutAll : List (ℕ × StateConn) → List (ℕ × StateConn) → Type 0
ShutAll [] [] = Unit
ShutAll [] (d ∷ ds) = ⊥
ShutAll (c ∷ cs) [] = ⊥
ShutAll ((n, c) ∷ cs) ((m, d) ∷ ds) = (m ≡ n) × (c.closes < d.closes) × ShutAll cs ds

shut-closes : (now : ℕ) (c : StateConn) → c.closes < (shut false now c).closes
unfolding shut StateConn.close set_state
shut-closes now c = ground arith

close_each-shuts :
    (now : ℕ) (cs : List (ℕ × StateConn))
    → lived_of now cs ≡ []
    → ShutAll cs (close_each false now cs).2
unfolding close_each
close_each-shuts now [] h = tt
close_each-shuts now ((n, c) ∷ cs) h = elim (Bool-cases (is_lived now c)) [
  | inl alive ↦ absurd (cc (rw alive at h))
  | inr dead ↦ rw dead (refl, shut-closes now c, close_each-shuts now cs (rw dead at h))
]

-- Where no connection counts as alive, `closeConns(false)` closes every one.
pub close_conns-shuts :
    (now : ℕ) (srv : Server)
    → lived_of now srv.conns ≡ []
    → (closed : List (ℕ × StateConn)) × ((close_conns false now srv).1.closed
        ≡ closed ++ srv.closed)
      × ShutAll srv.conns closed
unfolding close_conns
close_conns-shuts now srv h =
    ((close_each false now srv.conns).2, refl, close_each-shuts now srv.conns h)

pub close_conns-nothing :
    (now : ℕ) (srv : Server) → srv.conns ≡ [] → (close_conns true now srv).1.closed ≡ srv.closed
unfolding close_conns close_each
close_conns-nothing now srv h = rw h refl

-- `closeConns(true)` leaves no connection and returns false.
pub close_conns-forced :
    (now : ℕ) (srv : Server)
    → ((close_conns true now srv).0 ≡ false) × ((close_conns true now srv).1.conns ≡ [])
unfolding close_conns
close_conns-forced now srv = close_each-forced now srv.conns

-- `closeConns(false)` leaves exactly those that count as alive, and returns whether there is one.
pub close_conns-lived :
    (now : ℕ) (srv : Server)
    → ((close_conns false now srv).0 ≡ not (is_empty (lived_of now srv.conns)))
      × ((close_conns false now srv).1.conns ≡ lived_of now srv.conns)
unfolding close_conns
close_conns-lived now srv = close_each-lived now srv.conns

-- A connection that was last read or written at the second `t`, below 2^55, is left open by an
-- unforced close exactly if that was more than five seconds ago.
pub is_lived-touch :
    (t now : ℕ) (c : StateConn) → t < 2 ^ 55 → is_lived now (touch t c) ≡ ltb (t + 5) now
unfolding is_lived touch
is_lived-touch t now c h = rw (get_state-set_state t state_active c h (omega arith)) refl
