-- ===== src/ClientConn/Changes.antt =====
-- The changes of status over the whole life of a connection.
use sofa_bolt_go.Base.{
  ◌≡◌, sym, subst, Bool, true, false, Option, some, List, [], ◌∷◌, Bool-cases, Option-cases, inl,
  inr,
}
use sofa_bolt_go.ClientConn.{
  ClientConn, Link, Read, Redial, Outcome, command, broken, on_status_change, dispatch, polyfill,
  read, read_loop, decoded, after_break, doread_loop, doread,
}
use sofa_bolt_go.ClientConn.Status.{
  HasChain, HasChainWith, HasChainOpt, start, polyfill-HasChain, on_status_change-HasChain,
  close_if-HasChain, before_reads-HasChain, after_break-HasChain,
}

module _ {E C : Type 0} (is_deadline_error : E → Bool) where
  decoded_late :
      (e : E) (x : ClientConn E C)
      → x.conn.is_error ≡ false
      → is_deadline_error e ≡ true
      → decoded is_deadline_error (broken e) x ≡ (false, on_status_change 2 x)
  unfolding decoded
  decoded_late e x sound late = simp (sound, late)

  decoded_dead :
      (e : E) (x : ClientConn E C)
      → is_deadline_error e ≡ false
      → decoded is_deadline_error (broken e) x ≡ (true, dispatch (broken e) x)
  unfolding decoded
  decoded_dead e x dead = elim (Bool-cases x.conn.is_error) [
    | inl error ↦ simp (error, dead)
    | inr sound ↦ simp (sound, dead)
  ]

  decoded_error :
      (e : E) (x : ClientConn E C)
      → x.conn.is_error ≡ true
      → decoded is_deadline_error (broken e) x ≡ (true, dispatch (broken e) x)
  unfolding decoded
  decoded_error e x error = simp error

  decoded-HasChain :
      (o : Outcome E C) (x : ClientConn E C)
      → HasChain x
      → HasChain (decoded is_deadline_error o x).1
  unfolding decoded
  decoded-HasChain (command c) x h = h
  decoded-HasChain (broken e) x h = elim (Bool-cases (is_deadline_error e)) [
    | inr dead ↦ subst HasChainWith (sym (decoded_dead e x dead)) h
    | inl late ↦ elim (Bool-cases x.conn.is_error) [
      | inl error ↦ subst HasChainWith (sym (decoded_error e x error)) h
      | inr sound ↦
          subst HasChainWith (sym (decoded_late e x sound late)) (on_status_change-HasChain 2 x h)
    ]
  ]

  read-HasChain :
      (r : Read E C) (x : ClientConn E C) → HasChain x → HasChain (read is_deadline_error r x).1
  unfolding read
  read-HasChain r x h =
      decoded-HasChain r.outcome _
        (before_reads-HasChain r.hooks _ (close_if-HasChain r.closing x h))

  read_loop-HasChain :
      (rs : List (Read E C)) (x : ClientConn E C)
      → HasChain x
      → HasChain (read_loop is_deadline_error rs x).1
  unfolding read_loop
  read_loop-HasChain [] x h = h
  read_loop-HasChain (r ∷ rs) x h = elim (Bool-cases (read is_deadline_error r x).0) [
    | inl broke ↦ rw (read_loop, broke) (read-HasChain r x h)
    | inr on ↦
        rw (read_loop, on)
          (read_loop-HasChain rs (read is_deadline_error r x).1 (read-HasChain r x h))
  ]

  doread_loop-HasChain :
      (rounds : List (List (Read E C) × Redial)) (x : ClientConn E C)
      → HasChain x
      → HasChain (doread_loop is_deadline_error rounds x).1
  unfolding doread_loop
  doread_loop-HasChain [] x h = h
  doread_loop-HasChain ((rs, r) ∷ more) x h =
      let read_on = read_loop is_deadline_error rs x in
      let h' = read_loop-HasChain rs x h in
      let h'' = after_break-HasChain r read_on.1 h' in
      elim (Bool-cases read_on.0) [
        | inr waiting ↦ rw (doread_loop, waiting) h'
        | inl broke ↦ elim (Option-cases (after_break r read_on.1).0) [
          | inl dialing_on ↦ rw (doread_loop, broke, dialing_on) h''
          | inr (true, ended) ↦ rw (doread_loop, broke, ended) h''
          | inr (false, on) ↦
              rw (doread_loop, broke, on)
                (doread_loop-HasChain more (after_break r read_on.1).1 h'')
        ]
      ]

  -- What a status changer is told by a new connection is a chain: with the connection given or
  -- dialed, whatever is read and dialed later, whoever calls `Close` and when, each change starts at
  -- the status in which the one before it ended, the first at Idle, and leads to another one, and
  -- the last one leads to the status that the connection has.
  pub doread-polyfill-HasChain :
      (rounds : List (List (Read E C) × Redial)) (given dialed : Option Link) (build_error : Bool)
      (x y : ClientConn E C)
      → x.status ≡ 0
      → x.changes ≡ []
      → polyfill given dialed build_error x ≡ some y
      → HasChain (doread is_deadline_error rounds y).1
  unfolding doread HasChainOpt
  doread-polyfill-HasChain rounds given dialed build_error x y z n e =
      let h = subst HasChainOpt e (polyfill-HasChain given dialed build_error x (start x z n)) in
      doread_loop-HasChain rounds (on_status_change 3 y) (on_status_change-HasChain 3 y h)
