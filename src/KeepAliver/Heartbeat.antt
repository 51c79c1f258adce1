-- ===== src/KeepAliver/Heartbeat.antt =====
-- sofabolt/keepaliver.go: `doHeartbeat`, by which the clients that do not answer leave their pool.
-- Sleeping and the two metrics that a heartbeat changes besides are left out.
use sofa_bolt_go.Base.{
  ℕ, suc, ◌+◌, ◌≡◌, refl, sym, ap, subst, ◌∙◌, Bool, true, false, not, ◌&&◌, ◌||◌, List, [], ◌∷◌,
  ◌++◌, leb, ◌==◌, if◌then◌else◌, arith, Bool-cases, inl, inr, length,
}
use sofa_bolt_go.Pool
use sofa_bolt_go.Pool.{Pool, mem}
use sofa_bolt_go.Pool.Members.{AreDistinct, mem-without, without-AreDistinct}
use sofa_bolt_go.KeepAliver.{KeepAliver}

-- What the clients' metrics say of their last use, in seconds, and how each heartbeat ends: does the
-- `n`th one of the check fail?
pub record Beat : Type 0 where
  pub interval : ℕ
  pub lasted : ℕ → ℕ
  pub now : ℕ
  pub fails : ℕ → Bool

-- A heartbeat sets the time of the last use.
abbrev pub touch : (ℕ → ℕ) → ℕ → ℕ → ℕ → ℕ
touch f c now d = if c == d then now else f d

abbrev pub is_due : Beat → ℕ → ℕ → Bool
is_due b t c = leb (b.lasted c + b.interval) t

-- The loop over the copy of the pool, `n` clients in: those that failed.
unfoldable pub brokens : Beat → ℕ → ℕ → List ℕ → List ℕ
brokens b t n [] = []
brokens b t n (c ∷ cs) =
    let sent = brokens (record b { lasted = touch b.lasted c b.now }) t (n + 1) cs in
    let idle = brokens b t (n + 1) cs in
    if is_due b t c then (if b.fails n then c ∷ sent else sent) else idle

unfoldable pub close_each : List ℕ → KeepAliver → KeepAliver
close_each [] ka = ka
close_each (c ∷ cs) ka = close_each cs (record ka { closed = c ∷ ka.closed })

-- `clientChecker`.
unfoldable pub check_clients : Beat → ℕ → Pool → KeepAliver → Pool × KeepAliver
check_clients b t p ka =
    let broken = brokens b t 0 p.clients in (Pool.delete_clients broken p, close_each broken ka)

mem-delete_clients :
    (c : ℕ) (ds : List ℕ) (p : Pool)
    → AreDistinct p.clients
    → mem c (Pool.delete_clients ds p).clients ≡ (mem c p.clients && not (mem c ds))
unfolding Pool.delete_clients Pool.delete
mem-delete_clients c [] p u = ground arith
mem-delete_clients c (d ∷ ds) p u =
    mem-delete_clients c ds (Pool.delete d p) (without-AreDistinct d p.clients u)
    ∙ ground (arith, mem-without c d p.clients u)

mem-close_each :
    (c : ℕ) (ds : List ℕ) (ka : KeepAliver)
    → mem c (close_each ds ka).closed ≡ (mem c ds || mem c ka.closed)
unfolding close_each
mem-close_each c [] ka = refl
mem-close_each c (d ∷ ds) ka =
    mem-close_each c ds (record ka { closed = d ∷ ka.closed }) ∙ ground arith

brokens-absent :
    (c : ℕ) (b : Beat) (t n : ℕ) (cs : List ℕ) → mem c cs ≡ false → mem c (brokens b t n cs) ≡ false
unfolding brokens
brokens-absent c b t n [] h = refl
brokens-absent c b t n (d ∷ cs) h = ground (
  arith,
  brokens-absent c b t (n + 1) cs,
  brokens-absent c (record b { lasted = touch b.lasted d b.now }) t (n + 1) cs,
)

self_same : (c : ℕ) → (c == c) ≡ true
self_same c = ground arith

brokens-head :
    (c : ℕ) (b : Beat) (t n : ℕ) (cs : List ℕ)
    → mem c cs ≡ false
    → mem c (brokens b t n (c ∷ cs)) ≡ (is_due b t c && b.fails n)
unfolding brokens
brokens-head c b t n cs h = ground (
  arith,
  self_same c,
  brokens-absent c b t (n + 1) cs h,
  brokens-absent c (record b { lasted = touch b.lasted c b.now }) t (n + 1) cs h,
)

brokens-tail :
    (c d : ℕ) (b : Beat) (t n : ℕ) (cs : List ℕ) (v : Bool)
    → (c == d) ≡ false
    → ((f : ℕ → ℕ) → f c ≡ b.lasted c → mem c (brokens (record b { lasted = f }) t (n + 1) cs) ≡ v)
    → mem c (brokens b t n (d ∷ cs)) ≡ v
unfolding brokens
brokens-tail c d b t n cs v other h =
    let sent : mem c (brokens (record b { lasted = touch b.lasted d b.now }) t (n + 1) cs) ≡ v =
      h (touch b.lasted d b.now) (ground (arith, other)) in
    let idle : mem c (brokens b t (n + 1) cs) ≡ v = h b.lasted refl in
    ground (arith, other, sent, idle)

mem-append : (c : ℕ) (xs ys : List ℕ) → mem c (xs ++ c ∷ ys) ≡ true
mem-append c [] ys = ground arith
mem-append c (x ∷ xs) ys = ground (arith, mem-append c xs ys)

apart : (c x : ℕ) (xs ys : List ℕ) → mem x (xs ++ c ∷ ys) ≡ false → (c == x) ≡ false
apart c x xs ys h = elim (Bool-cases (c == x)) [
  | inr other ↦ other
  | inl same ↦ let e : c ≡ x = ground (arith, same) in cc (rw (sym e) at h, mem-append c xs ys)
]

shifted :
    {l l' m m' : ℕ} (b : Beat) (t : ℕ)
    → l ≡ l'
    → m ≡ m'
    → (leb (l + b.interval) t && b.fails m) ≡ (leb (l' + b.interval) t && b.fails m')
shifted {l' = l'} {m = m} b t e e' =
    ap (λ x. leb (x + b.interval) t && b.fails m) e
    ∙ ap (λ y. leb (l' + b.interval) t && b.fails y) e'

plus_suc : (n m : ℕ) → n + 1 + m ≡ n + suc m
plus_suc n m = omega arith

brokens-at :
    (c : ℕ) (b : Beat) (t n : ℕ) (xs ys : List ℕ)
    → AreDistinct (xs ++ c ∷ ys)
    → mem c (brokens b t n (xs ++ c ∷ ys)) ≡ (is_due b t c && b.fails (n + length xs))
brokens-at c b t n [] ys (a, u) = rw (sym (plus_none n)) (brokens-head c b t n ys a)
  where
    plus_none : (m : ℕ) → m ≡ m + 0
    plus_none m = omega arith
brokens-at c b t n (x ∷ xs) ys (a, u) =
    brokens-tail c x b t n (xs ++ c ∷ ys) (is_due b t c && b.fails (n + suc (length xs)))
      (apart c x xs ys a)
      (λ f e.
        brokens-at c (record b { lasted = f }) t (n + 1) xs ys u
        ∙ shifted b t e (plus_suc n (length xs)))

-- A check of a pool without repetitions. The client at the place `n` leaves it, and is closed, exactly
-- if its last use is as far back as the interval and the heartbeat at that place fails.
pub check_clients-leaves :
    (b : Beat) (t : ℕ) (ka : KeepAliver) (p : Pool) (xs ys : List ℕ) (c : ℕ)
    → p.clients ≡ xs ++ c ∷ ys
    → AreDistinct (xs ++ c ∷ ys)
    → (mem c (check_clients b t p ka).0.clients ≡ not (is_due b t c && b.fails (length xs)))
      × (mem c (check_clients b t p ka).1.closed
          ≡ (is_due b t c && b.fails (length xs) || mem c ka.closed))
unfolding check_clients
check_clients-leaves b t ka p xs ys c e u =
    let at : mem c (brokens b t 0 p.clients) ≡ (is_due b t c && b.fails (length xs)) =
      ap (λ cs. mem c (brokens b t 0 cs)) e
      ∙ (brokens-at c b t 0 xs ys u ∙ shifted b t refl (zero_plus (length xs))) in
    (
      mem-delete_clients c (brokens b t 0 p.clients) p (subst AreDistinct (sym e) u)
          ∙ (ap (λ v. mem c p.clients && not v) at
              ∙ ap (λ v. v && not (is_due b t c && b.fails (length xs)))
                  (ap (mem c) e ∙ mem-append c xs ys)),
      mem-close_each c (brokens b t 0 p.clients) ka ∙ ap (λ v. v || mem c ka.closed) at,
    )
  where
    zero_plus : (n : ℕ) → 0 + n ≡ n
    zero_plus n = omega arith
