-- ===== src/ClientConn/Ending.antt =====
-- How the read loop of a connection ends.
use sofa_bolt_go.Base.{
  ℕ, ◌≡◌, ◌⊎◌, refl, sym, subst, Bool, true, false, ◌||◌, Option, none, some, List, [], ◌∷◌, ◌==◌,
  ==_iff, Bool-cases, Option-cases, inl, inr,
}
use sofa_bolt_go.ClientConn.{
  ClientConn, Read, Redial, Outcome, command, broken, on_status_change, close_link, read, read_loop,
  decoded, behind_redial, finish, after_break, doread_loop, doread, dialing, refused, connected,
  Redialed,
}
use sofa_bolt_go.ClientConn.Redialing.{Refusal, change-Keeps, may_redial-Refusal}

abbrev pub LastClosed : ℕ → List ℕ → Type 0
LastClosed n [] = ⊥
LastClosed n (m ∷ ms) = m ≡ n

-- A writer that fails in one of two rounds.
either :
    {A B : Type 0} (f g : Bool)
    → (A ⊎ (B ⊎ (f ≡ true))) ⊎ (A ⊎ (B ⊎ (g ≡ true)))
    → A ⊎ (B ⊎ ((f || g) ≡ true))
either f g (inl (inl a)) = inl a
either f g (inr (inl a)) = inl a
either f g (inl (inr (inl b))) = inr (inl b)
either f g (inr (inr (inl b))) = inr (inl b)
either f g (inl (inr (inr e))) = rw e (inr (inr refl))
either true g (inr (inr (inr e))) = inr (inr refl)
either false g (inr (inr (inr e))) = inr (inr e)

module _ {E C : Type 0} where
  -- The last that the dispatcher was given is an error.
  abbrev pub LastBroken : List (Outcome E C) → Type 0
  LastBroken [] = ⊥
  LastBroken (command c ∷ more) = ⊥
  LastBroken (broken e ∷ more) = Unit

  -- The writer for a new connection fails in a round.
  abbrev pub has_failing : List (List (Read E C) × Redial) → Bool
  has_failing [] = false
  has_failing ((rs, r) ∷ more) = r.build_error || has_failing more

  -- The status is Shutdown, the last dispatch was an error, the last connection was closed, and
  -- there was a reason not to go on; `failing` is that of a failing writer.
  abbrev pub IsOver : Bool → ClientConn E C → Type 0
  IsOver failing y =
      (y.status ≡ 5)
      × LastBroken y.dispatched
      × LastClosed y.conn.name y.closed_links
      × ((y.closed ≡ true) ⊎ ((y.has_dialer ≡ false) ⊎ (failing ≡ true)))

  shutdown-IsOver :
      (failing : Bool) (x : ClientConn E C)
      → LastBroken x.dispatched
      → LastClosed x.conn.name x.closed_links
      → (x.closed ≡ true) ⊎ ((x.has_dialer ≡ false) ⊎ (failing ≡ true))
      → IsOver failing (on_status_change 5 x)
  unfolding on_status_change
  shutdown-IsOver failing x b c why = elim (Bool-cases (x.status == 5)) [
    | inl same ↦ simp same ((==_iff x.status 5).0 same, b, c, why)
    | inr other ↦ simp other (refl, b, c, why)
  ]

  finish-IsOver :
      (failing : Bool) (x : ClientConn E C)
      → LastBroken x.dispatched
      → (x.closed ≡ true) ⊎ ((x.has_dialer ≡ false) ⊎ (failing ≡ true))
      → IsOver failing (finish x)
  unfolding finish
  finish-IsOver failing x b why = shutdown-IsOver failing (close_link x.conn x) b refl why

  IsOver-first : (f g : Bool) (x : ClientConn E C) → IsOver f x → IsOver (f || g) x
  IsOver-first f g x (s, b, c, why) = (s, b, c, either f g (inl why))

  -- Where `doread` ended behind a redial, and where it did at all.
  abbrev After : Bool → Option Bool × ClientConn E C → Type 0
  After failing (some true, y) = IsOver failing y
  After failing (some false, y) = Unit
  After failing (none, y) = Unit

  abbrev pub Ended : Bool → Bool × ClientConn E C → Type 0
  Ended failing (true, y) = IsOver failing y
  Ended failing (false, y) = Unit

  Ended-later : (f g : Bool) (z : Bool × ClientConn E C) → Ended g z → Ended (f || g) z
  Ended-later f g (true, x) (s, b, c, why) = (s, b, c, either f g (inr why))
  Ended-later f g (false, x) e = tt

  abbrev Broke : Bool × ClientConn E C → Type 0
  Broke (true, y) = LastBroken y.dispatched
  Broke (false, y) = Unit

  behind_redial-After :
      (failing : Bool) (x : ClientConn E C) (r : Redialed) (y : ClientConn E C)
      → LastBroken x.dispatched
      → Refusal x (r, y)
      → After failing (behind_redial failing (r, y))
  unfolding behind_redial
  behind_redial-After failing x dialing y b k = tt
  behind_redial-After failing x refused y b (k, inl why) =
      finish-IsOver failing y (subst LastBroken (sym k.dispatched) b) (inl why)
  behind_redial-After failing x refused y b (k, inr why) =
      finish-IsOver failing y (subst LastBroken (sym k.dispatched) b) (inr (inl why))
  behind_redial-After true x (connected l) y b k =
      finish-IsOver true y (subst LastBroken (sym k.dispatched) b) (inr (inr refl))
  behind_redial-After false x (connected l) y b k = tt

  after_break-After :
      (r : Redial) (x : ClientConn E C)
      → LastBroken x.dispatched
      → After r.build_error (after_break r x)
  unfolding after_break
  after_break-After r x b =
      let k = change-Keeps 4 x in
      behind_redial-After r.build_error (on_status_change 4 x) _ _
        (subst LastBroken (sym k.dispatched) b) (may_redial-Refusal r (on_status_change 4 x))

module _ {E C : Type 0} (is_deadline_error : E → Bool) where
  decoded-Broke : (o : Outcome E C) (x : ClientConn E C) → Broke (decoded is_deadline_error o x)
  unfolding decoded
  decoded-Broke (command c) x = tt
  decoded-Broke (broken e) x = elim (Bool-cases x.conn.is_error) [
    | inl error ↦ simp error tt
    | inr sound ↦ elim (Bool-cases (is_deadline_error e)) [
      | inl late ↦ simp (sound, late) tt
      | inr dead ↦ simp (sound, dead) tt
    ]
  ]

  read_loop-Broke :
      (rs : List (Read E C)) (x : ClientConn E C) → Broke (read_loop is_deadline_error rs x)
  unfolding read_loop read
  read_loop-Broke [] x = tt
  read_loop-Broke (r ∷ rs) x = elim (Bool-cases (read is_deadline_error r x).0) [
    | inl broke ↦
        rw (read_loop, broke)
          (subst (λ b. Broke (b, (read is_deadline_error r x).1)) broke (decoded-Broke r.outcome _))
    | inr on ↦ rw (read_loop, on) (read_loop-Broke rs (read is_deadline_error r x).1)
  ]

  doread_loop-Ended :
      (rounds : List (List (Read E C) × Redial)) (x : ClientConn E C)
      → Ended (has_failing rounds) (doread_loop is_deadline_error rounds x)
  unfolding doread_loop
  doread_loop-Ended [] x = tt
  doread_loop-Ended ((rs, r) ∷ more) x =
      let read_on = read_loop is_deadline_error rs x in
      elim (Bool-cases read_on.0) [
        | inr waiting ↦ rw (doread_loop, waiting) tt
        | inl broke ↦
            let b = subst (λ b. Broke (b, read_on.1)) broke (read_loop-Broke rs x) in
            let after = after_break-After r read_on.1 b in
            elim (Option-cases (after_break r read_on.1).0) [
              | inl dialing_on ↦ rw (doread_loop, broke, dialing_on) tt
              | inr (true, ended) ↦
                  rw (doread_loop, broke, ended)
                    (IsOver-first r.build_error (has_failing more) (after_break r read_on.1).1 (
                      subst (λ a. After r.build_error (a, (after_break r read_on.1).1)) ended
                        after))
              | inr (false, on) ↦
                  rw (doread_loop, broke, on)
                    (Ended-later r.build_error (has_failing more) _
                      (doread_loop-Ended more (after_break r read_on.1).1))
            ]
      ]

  -- If `doread` ends, then the status is Shutdown, the last that the dispatcher was given is an
  -- error, by which it tells the pending requests, the connection that it had last was closed, and it ended because
  -- the client was closed, because it has no dialer, or because the writer for a new connection failed.
  pub doread-Ended :
      (rounds : List (List (Read E C) × Redial)) (x : ClientConn E C)
      → Ended (has_failing rounds) (doread is_deadline_error rounds x)
  unfolding doread
  doread-Ended rounds x = doread_loop-Ended rounds (on_status_change 3 x)
