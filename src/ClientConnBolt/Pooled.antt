-- ===== src/ClientConnBolt/Pooled.antt =====
-- sofabolt/protocol/bolt/clientx_bolt.go and sofabolt/syncpool.go: `DoTimeout` takes its context from a
-- pool, and puts it back unless it timed out.
use sofa_bolt_go.Base.{
  ℕ, ◌+◌, ◌^◌, ◌≤◌, ◌<◌, ◌≡◌, refl, sym, subst, ◌∙◌, Bool, true, false, none, some, List, [], ◌∷◌,
  ◌==◌, arith, Bool-cases, inl, inr, length, u32_max,
}
use sofa_bolt_go.Request.{Request}
use sofa_bolt_go.Response.{Response}
use sofa_bolt_go.Client.Table.{update}
use sofa_bolt_go.Client.Entries.{same_id}
use sofa_bolt_go.Client.Pooled.{acquire}
use sofa_bolt_go.ClientConnBolt.{
  ClientConnBolt, Call, starting, returned, Returned, sent, answered, failed, was_closed,
  id_overflow, timed_out, io, Dispatching, idle, delivering, Dispatched, dispatch_step, put, Step,
}
use sofa_bolt_go.ClientConnBolt.Credit.{one_if, count, held, own, credit}
use sofa_bolt_go.ClientConnBolt.Invariant.{
  IsConsistent, IsSound, Entries, Delivers, numbers, update_all, Staged,
}
use sofa_bolt_go.ClientConnBolt.Safety.{IsFresh, fresh-IsConsistent, step-le, step-IsConsistent}
use sofa_bolt_go.ClientConnBolt.Told.{Fair, fresh-Fair, Step-Fair, dispatch_at-Fair}
use sofa_bolt_go.ClientConnBolt.Settled.{AreSettled-update, IsLess-refl, Settles}
use sofa_bolt_go.ClientConnBolt.Returning.{Settled, Step-Settled}

-- The dispatch is not about to tell the context.
abbrev pub IsFree : ℕ → Dispatching → Type 0
IsFree i idle = Unit
IsFree i (delivering j res) = (j == i) ≡ false

free-held : (i : ℕ) (d : Dispatching) → IsFree i d → held i d ≡ 0
free-held i idle f = refl
free-held i (delivering j res) f = rw f refl

apart_of : (k i n : ℕ) → one_if k i + n ≡ 0 → ((i == k) ≡ false) × (n ≡ 0)
apart_of k i n z = ground arith

flip : (j i : ℕ) → (j == i) ≡ false → (i == j) ≡ false
flip j i h = ground arith

module _ {E : Type 0} where
  -- `ReleaseInvokeContext` is called unless `invoke` returned `ErrClientTimeout`.
  abbrev pub is_released : Returned E → Bool
  is_released sent = true
  is_released answered = true
  is_released (failed was_closed) = true
  is_released (failed id_overflow) = true
  is_released (failed timed_out) = false
  is_released (failed (io e)) = true

  -- Another call of `DoTimeout` with a context of the pool: `AcquireInvokeContext`.
  unfoldable pub call_again : Request → Response → Bool → Call E → Call E
  call_again req res has_timeout c = record {
    stage = starting;
    ctx = acquire req res has_timeout c.ctx;
    number = none;
  }

  -- The steps of a client, and the start of another call with a context that was released. A callback
  -- has a context of its own.
  pub data PooledRun (w : ClientConnBolt E) : ClientConnBolt E → Type 0 where
    fresh : PooledRun w w
    step : (w' w'' : ClientConnBolt E) → PooledRun w w' → Step w' w'' → PooledRun w w''
    reuse :
        (w' : ClientConnBolt E) (i : ℕ) (result : Returned E) (req : Request) (res : Response)
        (has_timeout : Bool)
        → PooledRun w w'
        → (w'.calls i).ctx.callback ≡ false
        → (w'.calls i).stage ≡ returned result
        → is_released result ≡ true
        → PooledRun w (put i (call_again req res has_timeout (w'.calls i)) w')

  -- Whenever a context was used again, the dispatch was not about to tell it.
  unfoldable pub IsUndisturbed : (w w' : ClientConnBolt E) → PooledRun w w' → Type 0
  IsUndisturbed w _ fresh = Unit
  IsUndisturbed w _ (step w' w'' run s) = IsUndisturbed w w' run
  IsUndisturbed w _ (reuse w' i result req res t run b p r) =
      IsFree i w'.dispatching × IsUndisturbed w w' run

  again-Fair :
      (w : ClientConnBolt E) (i : ℕ) (req : Request) (res : Response) (t : Bool)
      → Fair w
      → count i w.requests ≡ 0
      → IsFree i w.dispatching
      → Fair (put i (call_again req res t (w.calls i)) w)
  unfolding call_again acquire
  again-Fair w i req res t h z f = record {
    once = λ j. elim (Bool-cases (i == j)) [
      | inl same ↦
          subst
            (λ k.
              credit k (update w.calls i (call_again req res t (w.calls i))) w.requests
                w.dispatching
              ≤ 1)
            (same_id i j same) (rw (own i) (omega (arith, z, free-held i w.dispatching f)))
      | inr other ↦ rw other (h.once j)
    ];
    quiet = λ j. elim (Bool-cases (i == j)) [
      | inl same ↦ rw same (omega arith)
      | inr other ↦ rw other (h.quiet j)
    ];
  }

  again-Settled :
      (w : ClientConnBolt E) (i : ℕ) (req : Request) (res : Response) (t : Bool)
      → Settled w
      → Settled (put i (call_again req res t (w.calls i)) w)
  unfolding call_again
  again-Settled w i req res t h =
      AreSettled-update w.calls w.requests w.requests i (call_again req res t (w.calls i)) h tt
        (λ j other. IsLess-refl j w.requests)

  number_of :
      (f : ℕ → Call E) (i j r : ℕ) (c : Call E)
      → c.number ≡ none
      → numbers (update f i c) j ≡ some r
      → numbers f j ≡ some r
  number_of f i j r c z e = elim (Bool-cases (i == j)) [
    | inl same ↦ absurd (cc (sym z ∙ (rw (numbers, same) at e)))
    | inr other ↦ rw (numbers, other) at e
  ]

  again-Entries :
      (f : ℕ → Call E) (i : ℕ) (c : Call E) (xs : List (ℕ × ℕ))
      → count i xs ≡ 0
      → Entries (numbers f) xs
      → Entries (numbers (update f i c)) xs
  again-Entries f i c [] z h = tt
  again-Entries f i c ((r, k) ∷ xs) z (p, h) =
      let (other, rest) = apart_of k i (count i xs) z in
      (rw (numbers, other) p, again-Entries f i c xs rest h)

  again-Delivers :
      (f : ℕ → Call E) (i : ℕ) (c : Call E) (d : Dispatching)
      → IsFree i d
      → Delivers (numbers f) d
      → Delivers (numbers (update f i c)) d
  again-Delivers f i c idle away h = tt
  again-Delivers f i c (delivering j res) away h = rw (numbers, flip j i away) h

  again-IsConsistent :
      (w : ClientConnBolt E) (i : ℕ) (req : Request) (res : Response) (t : Bool)
      → IsConsistent w
      → count i w.requests ≡ 0
      → IsFree i w.dispatching
      → IsConsistent (put i (call_again req res t (w.calls i)) w)
  unfolding call_again acquire
  again-IsConsistent w i req res t h z away =
      let c = call_again req res t (w.calls i) in
      record {
        sound =
            update_all (λ j d. IsSound w.increments d) w.calls i c h.sound
              (record { bounded = λ r e. absurd (cc e); staged = refl; told = tt });
        distinct = λ j k r p q.
            h.distinct j k r (number_of w.calls i j r c refl p) (number_of w.calls i k r c refl q);
        entries = again-Entries w.calls i c w.requests z h.entries;
        delivers = again-Delivers w.calls i c w.dispatching away h.delivers;
      }

  abbrev SettledFair : ClientConnBolt E → Type 0
  SettledFair w = Fair w × Settled w

  fresh-Settled : (w : ClientConnBolt E) → IsFresh w → Settled w
  fresh-Settled w f = λ j. rw (f.stage j) tt

  is_gone :
      (w : ClientConnBolt E) (i : ℕ) (result : Returned E)
      → Settled w
      → (w.calls i).ctx.callback ≡ false
      → (w.calls i).stage ≡ returned result
      → count i w.requests ≡ 0
  is_gone w i result h b e = subst (λ s. Settles i (w.calls i).ctx.callback s w.requests) e (h i) b

  -- A client that told nobody yet.
  abbrev pub IsUntold : ClientConnBolt E → Type 0
  IsUntold w = (j : ℕ) → (w.calls j).ctx.calls ≡ []

  PooledRun-Fair :
      (w w' : ClientConnBolt E) (run : PooledRun w w')
      → IsFresh w
      → IsUntold w
      → IsUndisturbed w w' run
      → SettledFair w'
  unfolding IsUndisturbed
  PooledRun-Fair w _ fresh f z u = (fresh-Fair w f z, fresh-Settled w f)
  PooledRun-Fair w _ (step w' w'' run s) f z u =
      let h = PooledRun-Fair w w' run f z u in
      (Step-Fair w' w'' s h.0, Step-Settled w' w'' s h.0 h.1)
  PooledRun-Fair w _ (reuse w' i result req res t run b p r) f z (away, u) =
      let h = PooledRun-Fair w w' run f z u in
      (
        again-Fair w' i req res t h.0 (is_gone w' i result h.1 b p) away,
        again-Settled w' i req res t h.1,
      )

  PooledRun-IsConsistent :
      (w w' : ClientConnBolt E) (run : PooledRun w w')
      → IsFresh w
      → IsUntold w
      → IsUndisturbed w w' run
      → w'.increments < 2 ^ 64
      → IsConsistent w'
  unfolding IsUndisturbed
  PooledRun-IsConsistent w _ fresh f z u b = fresh-IsConsistent w f
  PooledRun-IsConsistent w _ (step w' w'' run s) f z u b =
      step-IsConsistent w' w'' b s
        (PooledRun-IsConsistent w w' run f z u (omega (arith, b, step-le w' w'' s)))
  PooledRun-IsConsistent w _ (reuse w' i result req res t run c p r) f z (away, u) b =
      again-IsConsistent w' i req res t (PooledRun-IsConsistent w w' run f z u b)
        (is_gone w' i result (PooledRun-Fair w w' run f z u).1 c p) away

  -- In any interleaving of callers, dispatches and closes of a new client that told nobody yet, in which
  -- contexts that were released are used again, each at a time at which the dispatch was not about to
  -- tell it: a call is told at most once, a callback and a send on the channel counted together, and the
  -- next step of the dispatch can be taken: no send on the channel of a caller blocks it.
  pub pooled-calls :
      (w w' : ClientConnBolt E) (i : ℕ) (input : Dispatched E) (run : PooledRun w w')
      → IsFresh w
      → IsUntold w
      → IsUndisturbed w w' run
      → (length (w'.calls i).ctx.calls ≤ 1)
        × ((w'' : ClientConnBolt E) × (dispatch_step input w' ≡ some w''))
  pooled-calls w w' i input run f z u =
      let h = (PooledRun-Fair w w' run f z u).0 in
      let (w'', q, k) = dispatch_at-Fair w'.dispatching input w' h refl in
      (omega (arith, h.once i), (w'', q))

  -- In any interleaving of callers, dispatches and closes of a new client that told nobody yet, with less
  -- than 2^64 invocations, in which contexts that were released are used again, each at a time at which
  -- the dispatch was not about to tell it: where `invoke` returned nil with a response, the response has
  -- the id that was given to this call's request, an id of 32 bits, and it is not the id of the latest
  -- call with any other context.
  pub pooled-number :
      (w w' : ClientConnBolt E) (i : ℕ) (run : PooledRun w w')
      → IsFresh w
      → IsUntold w
      → IsUndisturbed w w' run
      → w'.increments < 2 ^ 64
      → (w'.calls i).stage ≡ returned answered
      → ((w'.calls i).number ≡ some (w'.calls i).ctx.res.command.rid)
        × ((w'.calls i).ctx.res.command.rid ≤ u32_max)
        × ((j : ℕ) → (w'.calls j).number ≡ some (w'.calls i).ctx.res.command.rid → j ≡ i)
  pooled-number w w' i run f z u b e =
      let h = PooledRun-IsConsistent w w' run f z u b in
      let n =
        subst (λ s. Staged s (w'.calls i).number (w'.calls i).ctx.res.command.rid) e
          (h.sound i).staged in
      (n, ((h.sound i).bounded _ n).1, λ j at_j. h.distinct j i _ at_j n)
