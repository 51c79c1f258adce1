-- ===== src/Tests/Workers.antt =====
-- Two workers of a server, one after the other, with one StateConn.
use sofa_bolt_go.Base.{
  ℕ, ◌≡◌, refl, true, false, Option, none, some, [], ◌==◌, Bool-cases, inl, inr,
}
use sofa_bolt_go.Pool.{mem}
use sofa_bolt_go.Server.Serving.{
  arrived, serving, Serving, Choice, acquire_conn, serve_conn, serve_conn_at, Run, done, later,
}
use sofa_bolt_go.Server.Serving.Owned.{IsIdle}
use sofa_bolt_go.Server.Serving.Tracked.{is_served, is_leaving, IsSettledRun, served-tracked}

abbrev idle : Serving
idle = record { stages = λ g. arrived; conns = []; free = []; next = 0 }

idle-IsIdle : IsIdle idle
idle-IsIdle = record { stages = λ g. refl; conns = refl; free = refl }

-- The pool gives what was released, if there is something.
abbrev fresh : Choice
fresh = record { pooled = none; takes_over = false }

abbrev again : Choice
again = record { pooled = some 0; takes_over = false }

abbrev or : Option Serving → Serving → Serving
or none w = w
or (some v) w = v

abbrev work : Choice → ℕ → Serving → Serving
work choice g w = or (serve_conn choice g w) w

abbrev released_one : Serving
released_one = work fresh 0 (work fresh 0 (work fresh 0 (work fresh 0 (work fresh 0 idle))))

until_released : Run idle released_one
unfolding serve_conn_at acquire_conn
until_released =
    later _ _ fresh 0
      (later _ _ fresh 0
        (later _ _ fresh 0 (later _ _ fresh 0 (later _ _ fresh 0 done refl) refl) refl) refl)
      refl

abbrev second : Serving
second = work again 1 (work again 1 (work fresh 0 released_one))

until_second : Run idle second
unfolding serve_conn_at acquire_conn
until_second =
    later _ _ again 1 (later _ _ again 1 (later _ _ fresh 0 until_released refl) refl) refl

none_leaves : (h : ℕ) → is_leaving ((work fresh 0 released_one).stages h) 0 ≡ false
unfolding serve_conn_at acquire_conn
none_leaves h = elim (Bool-cases (0 == h)) [ inl same ↦ rw same refl | inr other ↦ rw other refl ]

second-IsSettledRun : IsSettledRun idle second until_second
unfolding serve_conn_at acquire_conn IsSettledRun until_second until_released
second-IsSettledRun = (tt, (λ h. none_leaves h, (tt, (tt, (tt, (tt, (tt, (tt, tt))))))))

second_served : is_served (second.stages 1) 0 ≡ true
unfolding serve_conn_at acquire_conn
second_served = refl

served-tracked_example : mem 0 second.conns ≡ true
served-tracked_example =
    served-tracked idle second until_second 1 0 idle-IsIdle second-IsSettledRun second_served

-- The second worker gets the StateConn before the first one has taken it out of the tracked ones:
-- the connection is served, and is not tracked.
abbrev lost : Serving
lost = work fresh 0 (work again 1 (work again 1 released_one))

until_lost : Run idle lost
unfolding serve_conn_at acquire_conn
until_lost = later _ _ fresh 0 (later _ _ again 1 (later _ _ again 1 until_released refl) refl) refl

untracked : (lost.stages 1 ≡ serving 0) × (lost.conns ≡ [])
unfolding serve_conn_at acquire_conn
untracked = (refl, refl)
