-- ===== src/ClientConn/Status.antt =====
-- The changes of status, as a status changer sees them.
use sofa_bolt_go.Base.{
  ℕ, zero, suc, ◌≡◌, ◌≢◌, refl, sym, subst, Bool, true, false, not, ◌||◌, Option, none, some, List,
  [], ◌∷◌, ◌==◌, arith, Bool-cases, Option-cases, inl, inr, if◌then◌else◌,
}
use sofa_bolt_go.ClientConn.{
  ClientConn, Link, Redial, Attempt, on_status_change, close_link, close, close_if, polyfill,
  before_reads, redial_loop, redial, may_redial, behind_redial, replace, finish, after_break,
  dialing, refused, connected, Redialed,
}

-- Each change starts where the one before it ended, changes something, and the last one leads to the
-- status `s`; the first starts at Idle.
abbrev pub IsChained : List (ℕ × ℕ) → ℕ → Type 0
IsChained [] s = s ≡ 0
IsChained ((from, to) ∷ more) s = (to ≡ s) × (from ≢ to) × IsChained more from

differs : (a b : ℕ) → (a == b) ≡ false → a ≢ b
differs a b h e = ground arith

module _ {E C : Type 0} where
  abbrev pub HasChain : ClientConn E C → Type 0
  HasChain x = IsChained x.changes x.status

  pub on_status_change-HasChain :
      (to : ℕ) (x : ClientConn E C) → HasChain x → HasChain (on_status_change to x)
  unfolding on_status_change
  on_status_change-HasChain to x h = elim (Bool-cases (x.status == to)) [
    | inl same ↦ rw same h
    | inr other ↦ rw other (refl, differs x.status to other, h)
  ]

  close-HasChain : (x : ClientConn E C) → HasChain x → HasChain (close x).1
  unfolding close
  close-HasChain x h = elim (Bool-cases x.closed) [
    | inl before ↦ rw before h
    | inr first ↦ rw first h
  ]

  pub close_if-HasChain : (b : Bool) (x : ClientConn E C) → HasChain x → HasChain (close_if b x)
  close_if-HasChain true x h = close-HasChain x h
  close_if-HasChain false x h = h

  pub before_reads-HasChain :
      (n : ℕ) (x : ClientConn E C) → HasChain x → HasChain (before_reads n x)
  unfolding before_reads
  before_reads-HasChain zero x h = h
  before_reads-HasChain (suc n) x h =
      before_reads-HasChain n (on_status_change 3 x) (on_status_change-HasChain 3 x h)

  redial_loop-HasChain :
      (attempts : List Attempt) (x : ClientConn E C)
      → HasChain x
      → HasChain (redial_loop attempts x).1
  unfolding redial_loop
  redial_loop-HasChain [] x h = h
  redial_loop-HasChain (a ∷ more) x h =
      let x' = close_if a.closing x in
      let h' = close_if-HasChain a.closing x h in
      elim (Bool-cases x'.closed) [
        | inl stop ↦ rw (redial_loop, stop) h'
        | inr on ↦ elim (Option-cases a.dialed) [
          | inl missed ↦
              rw (redial_loop, on, missed)
                (redial_loop-HasChain more (close_if a.closing_late x')
                  (close_if-HasChain a.closing_late x' h'))
          | inr (l, met) ↦ rw (redial_loop, on, met) (close_if-HasChain a.closing_late x' h')
        ]
      ]

  redial_on :
      (attempts : List Attempt) (x : ClientConn E C)
      → x.has_dialer ≡ true
      → redial attempts x ≡ redial_loop attempts (on_status_change 1 x)
  unfolding redial
  redial_on attempts x has = simp has

  redial_off :
      (attempts : List Attempt) (x : ClientConn E C)
      → x.has_dialer ≡ false
      → redial attempts x ≡ (refused, x)
  unfolding redial
  redial_off attempts x none_given = simp none_given

  -- The status is still that of the last change.
  abbrev pub HasChainWith : {A : Type 0} → A × ClientConn E C → Type 0
  HasChainWith (a, x) = HasChain x

  redial-HasChain :
      (attempts : List Attempt) (x : ClientConn E C) → HasChain x → HasChain (redial attempts x).1
  redial-HasChain attempts x h = elim (Bool-cases x.has_dialer) [
    | inl has ↦
        subst HasChainWith (sym (redial_on attempts x has))
          (redial_loop-HasChain attempts (on_status_change 1 x) (on_status_change-HasChain 1 x h))
    | inr none_given ↦ subst HasChainWith (sym (redial_off attempts x none_given)) h
  ]

  may_redial-HasChain : (r : Redial) (x : ClientConn E C) → HasChain x → HasChain (may_redial r x).1
  unfolding may_redial
  may_redial-HasChain r x h =
      let x' = close_if r.closing x in
      let h' = close_if-HasChain r.closing x h in
      elim (Bool-cases (x'.closed || not x'.has_dialer)) [
        | inl stop ↦ rw stop h'
        | inr on ↦ rw on (redial-HasChain r.attempts x' h')
      ]

  finish-HasChain : (x : ClientConn E C) → HasChain x → HasChain (finish x)
  unfolding finish
  finish-HasChain x h = on_status_change-HasChain 5 (close_link x.conn x) h

  replace-HasChain : (l : Link) (x : ClientConn E C) → HasChain x → HasChain (replace l x)
  unfolding replace
  replace-HasChain l x h = on_status_change-HasChain 3 (record (close_link x.conn x) { conn = l }) h

  replaced :
      (failing : Bool) (r : Redialed) (x : ClientConn E C)
      → HasChain x
      → HasChain (behind_redial failing (r, x)).1
  unfolding behind_redial
  replaced failing dialing x h = h
  replaced failing refused x h = finish-HasChain x h
  replaced true (connected l) x h = finish-HasChain x h
  replaced false (connected l) x h = replace-HasChain l x h

  pub after_break-HasChain :
      (r : Redial) (x : ClientConn E C) → HasChain x → HasChain (after_break r x).1
  unfolding after_break
  after_break-HasChain r x h =
      replaced r.build_error _ _
        (may_redial-HasChain r (on_status_change 4 x) (on_status_change-HasChain 4 x h))

  pub start : (x : ClientConn E C) → x.status ≡ 0 → x.changes ≡ [] → HasChain x
  start x z n = subst (λ cs. IsChained cs x.status) (sym n) z

  unfoldable pub HasChainOpt : Option (ClientConn E C) → Type 0
  HasChainOpt none = Unit
  HasChainOpt (some x) = HasChain x

  dialed-HasChain :
      (b : Bool) (l : Link) (x : ClientConn E C)
      → HasChain x
      → HasChainOpt (if b then none else some (record x { conn = l }))
  unfolding HasChainOpt
  dialed-HasChain true l x h = tt
  dialed-HasChain false l x h = h

  pub polyfill-HasChain :
      (given dialed : Option Link) (build_error : Bool) (x : ClientConn E C)
      → HasChain x
      → HasChainOpt (polyfill given dialed build_error x)
  unfolding polyfill
  polyfill-HasChain given dialed build_error x h = go given dialed
    where
      idle : HasChain (on_status_change 0 x)
      idle = on_status_change-HasChain 0 x h

      connecting : HasChain (on_status_change 1 (on_status_change 0 x))
      connecting = on_status_change-HasChain 1 (on_status_change 0 x) idle

      go : (given dialed : Option Link) → HasChainOpt (polyfill given dialed build_error x)
      go (some l) d = dialed-HasChain build_error l (on_status_change 0 x) idle
      go none (some l) =
          dialed-HasChain (not x.has_dialer) l (on_status_change 1 (on_status_change 0 x))
            connecting
      go none none =
          dialed-HasChain (not x.has_dialer) _ (on_status_change 1 (on_status_change 0 x))
            connecting
