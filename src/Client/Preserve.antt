-- ===== src/Client/Preserve.antt =====
-- The moves that the client's steps are made of keep it consistent.
use sofa_bolt_go.Base.{
  ℕ, ◌≡◌, refl, sym, true, false, none, some, List, [], ◌∷◌, ◌==◌, arith, Bool-cases, ==_iff, inl,
  inr,
}
use sofa_bolt_go.Response
use sofa_bolt_go.Response.{Response}
use sofa_bolt_go.Command
use sofa_bolt_go.Client.Table.{find, remove, insert, update}
use sofa_bolt_go.Client.{
  InvokeContext, Phase, Reader, reading, delivering, closing, storing, stopped, abort, abort_all,
  invoke_context, assign_response, starting, checking, numbering, adding, writing, removing,
  waiting, returned, sent, answered, failed,
}
use sofa_bolt_go.Client.Invariant.{
  IsPending, IsSane, PhaseMatches, NotTarget, Entries, Held, Consistent, is_registered, request_id,
}
use sofa_bolt_go.Client.Entries.{
  Absent-remove_same, NotTarget-remove, Entries-remove, find-IsPending, Absent-NotTarget,
  unregistered-NotTarget, Entries-update, Entries-update_pending,
}

==_refl : (i : ℕ) → (i == i) ≡ true
==_refl i = ground arith

not_same : (i j : ℕ) → (i ≡ j → ⊥) → (i == j) ≡ false
not_same i j h = elim (Bool-cases (i == j)) [
  | inl same ↦ absurd (h ((==_iff i j).0 same))
  | inr other ↦ other
]

module _ {E : Type 0} where
  at_update :
      (P : InvokeContext E → Type 0) (f : ℕ → InvokeContext E) (i j : ℕ) (c : InvokeContext E)
      → (i ≡ j → P c)
      → P (f j)
      → P (update f i c j)
  at_update P f i j c here there = elim (Bool-cases (i == j)) [
    | inl same ↦ rw same (here ((==_iff i j).0 same))
    | inr other ↦ rw other there
  ]

  -- A write that leaves a pending context pending.
  pub put_pending :
      (f : ℕ → InvokeContext E) (xs : List (ℕ × ℕ)) (reader : Reader E) (i : ℕ)
      (c : InvokeContext E)
      → Consistent f xs reader
      → IsSane c
      → ((r : ℕ) → IsPending (f i) r → IsPending c r)
      → Consistent (update f i c) xs reader
  put_pending f xs reader i c h s keep = record {
    contexts = λ j. at_update IsSane f i j c (λ e. s) (h.contexts j);
    requests = Entries-update_pending f i c xs keep h.requests;
    held = held reader h.held;
  }
    where
      held : (reader : Reader E) → Held f xs reader → Held (update f i c) xs reader
      held reading t = tt
      held (delivering k res) (n, p) = (
        n,
        at_update (λ d. IsPending d res.command.rid) f i k c (λ e. keep res.command.rid (rw e p)) p,
      )
      held (closing e) t = tt
      held (storing e) t = tt
      held stopped t = tt

  -- A registration.
  pub add :
      (f : ℕ → InvokeContext E) (xs : List (ℕ × ℕ)) (reader : Reader E) (i rid : ℕ)
      (c : InvokeContext E)
      → Consistent f xs reader
      → is_registered (f i).phase ≡ false
      → IsSane c
      → IsPending c rid
      → Consistent (update f i c) (insert rid i xs) reader
  add f xs reader i rid c h u s p = record {
    contexts = λ j. at_update IsSane f i j c (λ e. s) (h.contexts j);
    requests = (
      rw (==_refl i) p,
      Absent-remove_same rid xs,
      Entries-update f i c (remove rid xs) (NotTarget-remove rid i xs away)
          (Entries-remove f rid xs h.requests),
    );
    held = held reader h.held;
  }
    where
      away : NotTarget i xs
      away = unregistered-NotTarget f i xs h.requests u

      held : (reader : Reader E) → Held f xs reader → Held (update f i c) (insert rid i xs) reader
      held reading t = tt
      held (delivering k res) (n, q) =
          let apart : k ≡ i → ⊥ = λ e. cc (e, q.registered, u) in
          (
            (not_same k i apart, NotTarget-remove rid k xs n),
            at_update (λ d. IsPending d res.command.rid) f i k c (λ e. absurd (apart (sym e))) q,
          )
      held (closing e) t = tt
      held (storing e) t = tt
      held stopped t = tt

  -- A removal.
  pub del :
      (f : ℕ → InvokeContext E) (xs : List (ℕ × ℕ)) (reader : Reader E) (rid : ℕ)
      → Consistent f xs reader
      → Consistent f (remove rid xs) reader
  del f xs reader rid h = record {
    contexts = h.contexts;
    requests = Entries-remove f rid xs h.requests;
    held = held reader h.held;
  }
    where
      held : (reader : Reader E) → Held f xs reader → Held f (remove rid xs) reader
      held reading t = tt
      held (delivering k res) (n, p) = (NotTarget-remove rid k xs n, p)
      held (closing e) t = tt
      held (storing e) t = tt
      held stopped t = tt

  -- The loop takes a context out of the table.
  pub hold :
      (f : ℕ → InvokeContext E) (xs : List (ℕ × ℕ)) (reader : Reader E) (i : ℕ) (res : Response)
      → Consistent f xs reader
      → find res.command.rid xs ≡ some i
      → Consistent f (remove res.command.rid xs) (delivering i res)
  hold f xs reader i res h found =
      let rid = res.command.rid in
      let p : IsPending (f i) rid = find-IsPending f rid i xs h.requests found in
      let rest = Entries-remove f rid xs h.requests in
      record {
        contexts = h.contexts;
        requests = rest;
        held = (Absent-NotTarget f rid i (remove rid xs) rest p.key (Absent-remove_same rid xs), p);
      }

  -- The loop has told it.
  pub tell :
      (f : ℕ → InvokeContext E) (xs : List (ℕ × ℕ)) (i : ℕ) (res : Response) (c : InvokeContext E)
      → Consistent f xs (delivering i res)
      → IsSane c
      → Consistent (update f i c) xs reading
  tell f xs i res c h s = record {
    contexts = λ j. at_update IsSane f i j c (λ e. s) (h.contexts j);
    requests = Entries-update f i c xs h.held.0 h.requests;
    held = tt;
  }

  -- A pending context can be told the end of the loop.
  pub abort-IsSane :
      (c : InvokeContext E) (r : ℕ) (err : E) → IsPending c r → IsSane c → IsSane (abort err c)
  unfolding abort
  abort-IsSane c r err p s = elim (Bool-cases c.callback) [
    | inl on ↦
        rw (on, p.untold)
          (record {
            early = λ u. absurd (cc (u, p.registered));
            history = rw p.silent tt;
            phase = s.phase;
          })
    | inr off ↦
        rw (off, p.silent, p.untold)
          (record {
            early = λ u. absurd (cc (u, p.registered));
            history = (tt, tt);
            phase = s.phase;
          })
  ]

  -- `Invoke` of a pending context does not block, and leaves it sane.
  pub invoke_context-IsSane :
      (c : InvokeContext E) (res : Response)
      → IsPending c res.command.rid
      → IsSane c
      → (c' : InvokeContext E) × (invoke_context none res c ≡ some c') × IsSane c'
  unfolding invoke_context assign_response Response.copy_to Command.copy_to Response.reset
  invoke_context-IsSane c res p s = elim (Bool-cases c.callback) [
    | inl on ↦ rw on (
      _,
      refl,
      record {
        early = λ u. absurd (cc (u, p.registered));
        history = rw (p.silent, p.untold) (sym p.key);
        phase = new_res c.phase p.key s.phase;
      },
    )
    | inr off ↦
        rw (off, p.silent)
          (
            _,
            refl,
            record {
              early = λ u. absurd (cc (u, p.registered));
              history = rw p.untold (sym p.key, sym p.key);
              phase = s.phase;
            },
          )
  ]
    where
      new_res :
          (phase : Phase E)
          → request_id c ≡ res.command.rid
          → PhaseMatches (request_id c) c.res phase
          → PhaseMatches (request_id c) res phase
      new_res starting k m = tt
      new_res checking k m = tt
      new_res numbering k m = tt
      new_res (adding rid dst) k m = m
      new_res (writing rid dst) k m = tt
      new_res (removing rid sent) k m = tt
      new_res (removing rid answered) k m = m
      new_res (removing rid (failed e)) k m = tt
      new_res (waiting rid) k m = tt
      new_res (returned sent) k m = tt
      new_res (returned answered) k m = sym k
      new_res (returned (failed e)) k m = tt

  pub abort_all-IsSane :
      (err : E) (xs : List (ℕ × ℕ)) (f : ℕ → InvokeContext E)
      → Entries f xs
      → ((i : ℕ) → IsSane (f i))
      → (i : ℕ) → IsSane (abort_all err xs f i)
  abort_all-IsSane err [] f e s i = s i
  abort_all-IsSane err ((r, j) ∷ xs) f (p, a, e) s i =
      abort_all-IsSane err xs (update f j (abort err (f j)))
        (Entries-update f j (abort err (f j)) xs (Absent-NotTarget f r j xs e p.key a) e)
        (λ k.
          at_update IsSane f j k (abort err (f j)) (λ same. abort-IsSane (f j) r err p (s j)) (s k))
        i
