-- ===== src/ClientConn/Redialing.antt =====
-- What a redial keeps, and why there may be no new connection.
use sofa_bolt_go.Base.{
  ℕ, ◌≡◌, ◌⊎◌, refl, ◌∙◌, Bool, true, false, List, [], ◌∷◌, ◌==◌, Bool-cases, Option-cases, inl,
  inr,
}
use sofa_bolt_go.ClientConn.{
  ClientConn, Redial, Attempt, on_status_change, close, close_if, redial_loop, redial, may_redial,
  dialing, refused, connected, Redialed,
}

module _ {E C : Type 0} where
  -- What of a connection a change of status or a `Close` leaves as it is.
  pub record Keeps (x y : ClientConn E C) : Type 0 where
    pub dispatched : y.dispatched ≡ x.dispatched
    pub has_dialer : y.has_dialer ≡ x.has_dialer

  Keeps-refl : (x : ClientConn E C) → Keeps x x
  Keeps-refl x = record { dispatched = refl; has_dialer = refl }

  Keeps-trans : (x y z : ClientConn E C) → Keeps x y → Keeps y z → Keeps x z
  Keeps-trans x y z k l = record {
    dispatched = l.dispatched ∙ k.dispatched;
    has_dialer = l.has_dialer ∙ k.has_dialer;
  }

  pub change-Keeps : (to : ℕ) (x : ClientConn E C) → Keeps x (on_status_change to x)
  unfolding on_status_change
  change-Keeps to x = elim (Bool-cases (x.status == to)) [
    | inl same ↦ simp same (Keeps-refl x)
    | inr other ↦ simp other (record { dispatched = refl; has_dialer = refl })
  ]

  close-Keeps : (x : ClientConn E C) → Keeps x (close x).1
  unfolding close
  close-Keeps x = elim (Bool-cases x.closed) [
    | inl before ↦ simp before (Keeps-refl x)
    | inr first ↦ simp first (record { dispatched = refl; has_dialer = refl })
  ]

  close_if-Keeps : (b : Bool) (x : ClientConn E C) → Keeps x (close_if b x)
  close_if-Keeps true x = close-Keeps x
  close_if-Keeps false x = Keeps-refl x

  -- Why there is no new connection.
  abbrev pub Refusal : ClientConn E C → Redialed × ClientConn E C → Type 0
  Refusal x (dialing, y) = Keeps x y
  Refusal x (refused, y) = Keeps x y × ((y.closed ≡ true) ⊎ (y.has_dialer ≡ false))
  Refusal x (connected l, y) = Keeps x y

  Refusal-trans :
      (x y : ClientConn E C) (z : Redialed × ClientConn E C) → Keeps x y → Refusal y z → Refusal x z
  Refusal-trans x y (dialing, z) k l = Keeps-trans x y z k l
  Refusal-trans x y (refused, z) k (l, why) = (Keeps-trans x y z k l, why)
  Refusal-trans x y (connected _, z) k l = Keeps-trans x y z k l

  redial_loop-Refusal :
      (attempts : List Attempt) (x : ClientConn E C) → Refusal x (redial_loop attempts x)
  unfolding redial_loop
  redial_loop-Refusal [] x = Keeps-refl x
  redial_loop-Refusal (a ∷ more) x =
      let x' = close_if a.closing x in
      let x'' = close_if a.closing_late x' in
      let k = close_if-Keeps a.closing x in
      let l = close_if-Keeps a.closing_late x' in
      elim (Bool-cases x'.closed) [
        | inl stop ↦ simp (redial_loop, stop) (k, inl refl)
        | inr on ↦ elim (Option-cases a.dialed) [
          | inl missed ↦
              simp (redial_loop, on, missed)
                (Refusal-trans x x'' (redial_loop more x'') (Keeps-trans x x' x'' k l)
                  (redial_loop-Refusal more x''))
          | inr (link, met) ↦ simp (redial_loop, on, met) (Keeps-trans x x' x'' k l)
        ]
      ]

  redial-Refusal : (attempts : List Attempt) (x : ClientConn E C) → Refusal x (redial attempts x)
  unfolding redial
  redial-Refusal attempts x = elim (Bool-cases x.has_dialer) [
    | inl has ↦ simp has (
        Refusal-trans x (on_status_change 1 x) _ (change-Keeps 1 x)
          (redial_loop-Refusal attempts (on_status_change 1 x)))
    | inr none_given ↦ simp none_given (Keeps-refl x, inr refl)
  ]

  pub may_redial-Refusal : (r : Redial) (x : ClientConn E C) → Refusal x (may_redial r x)
  unfolding may_redial
  may_redial-Refusal r x =
      let x' = close_if r.closing x in
      let k = close_if-Keeps r.closing x in
      elim (Bool-cases x'.closed) [
        | inl stop ↦ simp stop (k, inl refl)
        | inr on ↦ elim (Bool-cases x'.has_dialer) [
          | inl has ↦ simp (on, has) (Refusal-trans x x' _ k (redial-Refusal r.attempts x'))
          | inr none_given ↦ simp (on, none_given) (k, inr refl)
        ]
      ]
