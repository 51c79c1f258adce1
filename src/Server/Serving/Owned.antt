-- ===== src/Server/Serving/Owned.antt =====
-- A StateConn is one worker's, or in the pool, once.
use sofa_bolt_go.Base.{
  ℕ, ◌+◌, ◌≤◌, ◌<◌, ◌≡◌, refl, sym, subst, ◌⊎◌, Bool, true, false, Option, none, some, List, [],
  ◌∷◌, ◌==◌, if◌then◌else◌, arith, Bool-cases, inl, inr,
}
use sofa_bolt_go.Pool.{mem, without}
use sofa_bolt_go.Pool.Members.{AreDistinct, mem-without, without-AreDistinct}
use sofa_bolt_go.Server.Closing.{other_names}
use sofa_bolt_go.Server.Serving.{
  Stage, arrived, gone, acquired, serving, closing, releasing, hijacked, released, Serving, Choice,
  set_stage, acquire_conn, serve_conn_at, Run, done, later,
}

-- Has the worker the StateConn `d` for itself?
abbrev pub holds : Stage → ℕ → Bool
holds arrived d = false
holds gone d = false
holds (acquired c) d = c == d
holds (serving c) d = c == d
holds (closing c) d = c == d
holds (releasing c) d = c == d
holds (hijacked c) d = c == d
holds (released c) d = false

pub record IsOwned (w : Serving) : Type 0 where
  pub alone :
      (g h c : ℕ) → holds (w.stages g) c ≡ true → holds (w.stages h) c ≡ true → (g == h) ≡ true
  pub taken : (g c : ℕ) → holds (w.stages g) c ≡ true → mem c w.free ≡ false
  pub made : (g c : ℕ) → holds (w.stages g) c ≡ true → c < w.next
  pub pooled : (c : ℕ) → mem c w.free ≡ true → c < w.next
  pub once : AreDistinct w.free

pub no_true : (b : Bool) → b ≡ true → b ≡ false → ⊥
no_true b t f = cc

pub same_worker : (g h : ℕ) → (g == h) ≡ true → g ≡ h
same_worker g h e = ground arith

both : (g h i : ℕ) → (g == h) ≡ true → (g == i) ≡ true → (h == i) ≡ true
both g h i e f = ground (arith, e, f)

module _ (w : Serving) (g : ℕ) (s : Stage) where
  -- The stages behind a move of the worker `g`.
  abbrev moved : ℕ → Stage
  moved h = if g == h then s else w.stages h

  before :
      ((c : ℕ) → holds s c ≡ true → holds (w.stages g) c ≡ true)
      → (h c : ℕ) → holds (moved h) c ≡ true
      → holds (w.stages h) c ≡ true
  before k h c p = elim (Bool-cases (g == h)) [
    | inl e ↦ subst (λ n. holds (w.stages n) c ≡ true) (same_worker g h e) (k c (rw e at p))
    | inr e ↦ rw e at p
  ]

  -- The worker `g` moves, and gets nothing.
  keeps-IsOwned :
      ((c : ℕ) → holds s c ≡ true → holds (w.stages g) c ≡ true)
      → IsOwned w
      → IsOwned (set_stage g s w)
  keeps-IsOwned k o = record {
    alone = λ h i c p q. o.alone h i c (before k h c p) (before k i c q);
    taken = λ h c p. o.taken h c (before k h c p);
    made = λ h c p. o.made h c (before k h c p);
    pooled = o.pooled;
    once = o.once;
  }

  which :
      (d : ℕ)
      → ((c : ℕ) → holds s c ≡ true → (d == c) ≡ true)
      → (h c : ℕ) → holds (moved h) c ≡ true
      → (((g == h) ≡ true) × (d ≡ c)) ⊎ (holds (w.stages h) c ≡ true)
  which d mine h c p = elim (Bool-cases (g == h)) [
    | inl e ↦ inl (e, same_worker d c (mine c (rw e at p)))
    | inr e ↦ inr (rw e at p)
  ]

  -- The worker `g` gets `d`, which no worker has, and which is not in the pool then.
  gets-IsOwned :
      (d next : ℕ) (free : List ℕ)
      → ((c : ℕ) → holds s c ≡ true → (d == c) ≡ true)
      → ((h : ℕ) → holds (w.stages h) d ≡ false)
      → mem d free ≡ false
      → ((c : ℕ) → mem c free ≡ true → mem c w.free ≡ true)
      → w.next ≤ next
      → d < next
      → AreDistinct free
      → IsOwned w
      → IsOwned (record (set_stage g s w) { free = free; next = next })
  gets-IsOwned d next free mine unheld absent less l b u o = record {
    alone = λ h i c p q. elim (which d mine h c p) [
      | inl (e, x) ↦ elim (which d mine i c q) [
        | inl (e', y) ↦ both g h i e e'
        | inr old ↦ absurd (no_true _ (rw (sym x) at old) (unheld i))
      ]
      | inr old ↦ elim (which d mine i c q) [
        | inl (e', y) ↦ absurd (no_true _ (rw (sym y) at old) (unheld h))
        | inr older ↦ o.alone h i c old older
      ]
    ];
    taken = λ h c p. elim (which d mine h c p) [
      | inl (e, x) ↦ rw (sym x) absent
      | inr old ↦ elim (Bool-cases (mem c free)) [
        | inl there ↦ absurd (no_true _ (less c there) (o.taken h c old))
        | inr away ↦ away
      ]
    ];
    made = λ h c p. elim (which d mine h c p) [
      | inl (e, x) ↦ rw (sym x) b
      | inr old ↦ omega (arith, o.made h c old, l)
    ];
    pooled = λ c p. omega (arith, o.pooled c (less c p), l);
    once = u;
  }

unheld_free :
    (w : Serving) (d : ℕ) → IsOwned w → mem d w.free ≡ true → (h : ℕ) → holds (w.stages h) d ≡ false
unheld_free w d o m h = elim (Bool-cases (holds (w.stages h) d)) [
  | inl has ↦ absurd (no_true _ m (o.taken h d has))
  | inr lacks ↦ lacks
]

pub unheld_new : (w : Serving) → IsOwned w → (h : ℕ) → holds (w.stages h) w.next ≡ false
unheld_new w o h = elim (Bool-cases (holds (w.stages h) w.next)) [
  | inl has ↦ absurd (omega (arith, o.made h w.next has))
  | inr lacks ↦ lacks
]

unpooled_new : (w : Serving) → IsOwned w → mem w.next w.free ≡ false
unpooled_new w o = elim (Bool-cases (mem w.next w.free)) [
  | inl there ↦ absurd (omega (arith, o.pooled w.next there))
  | inr away ↦ away
]

less_without :
    (d c : ℕ) (xs : List ℕ) → AreDistinct xs → mem c (without d xs) ≡ true → mem c xs ≡ true
less_without d c xs u m = ground (arith, mem-without c d xs u, m)

gone_without : (d : ℕ) (xs : List ℕ) → AreDistinct xs → mem d (without d xs) ≡ false
gone_without d xs u = ground (arith, mem-without d d xs u)

abbrev pub Owned : Option Serving → Type 0
Owned none = Unit
Owned (some w) = IsOwned w

acquire_conn-Owned :
    (pooled : Option ℕ) (g : ℕ) (w : Serving) → IsOwned w → Owned (acquire_conn pooled g w)
unfolding acquire_conn
acquire_conn-Owned (some d) g w o = elim (Bool-cases (mem d w.free)) [
  | inl there ↦ rw there (
      gets-IsOwned w g (acquired d) d w.next (without d w.free) (λ c p. p) (unheld_free w d o there)
        (gone_without d w.free o.once) (λ c p. less_without d c w.free o.once p) (omega arith)
        (o.pooled d there) (without-AreDistinct d w.free o.once) o)
  | inr away ↦ rw away tt
]
acquire_conn-Owned none g w o =
    gets-IsOwned w g (acquired w.next) w.next (w.next + 1) w.free (λ c p. p) (unheld_new w o)
      (unpooled_new w o) (λ c p. p) (omega arith) (omega arith) o.once o

pub self : (d : ℕ) → (d == d) ≡ true
self d = ground arith

left_by :
    (w : Serving) (g d c h : ℕ)
    → (g == h) ≡ true
    → holds ((set_stage g (released d) w).stages h) c ≡ false
left_by w g d c h e = rw e refl

tracks-IsOwned : (w : Serving) (cs : List ℕ) → IsOwned w → IsOwned (record w { conns = cs })
tracks-IsOwned w cs o = record {
  alone = o.alone;
  taken = o.taken;
  made = o.made;
  pooled = o.pooled;
  once = o.once;
}

released-IsOwned :
    (w : Serving) (g d : ℕ)
    → w.stages g ≡ releasing d
    → IsOwned w
    → IsOwned (record (set_stage g (released d) w) { free = d ∷ w.free })
released-IsOwned w g d e o =
    let had : holds (w.stages g) d ≡ true = rw e (self d) in
    let v = keeps-IsOwned w g (released d) (λ c p. cc) o in
    record {
      alone = v.alone;
      taken = λ h c p. elim (Bool-cases (c == d)) [
        | inr other ↦ rw other (v.taken h c p)
        | inl same ↦
            let x : c ≡ d = same_worker c d same in
            let old : holds (w.stages h) d ≡ true =
              subst (λ n. holds (w.stages h) n ≡ true) x
                (before w g (released d) (λ c q. cc) h c p) in
            absurd (no_true _ p (left_by w g d c h (o.alone g h d had old)))
      ];
      made = v.made;
      pooled = λ c p. elim (Bool-cases (c == d)) [
        | inl same ↦ rw (same_worker c d same) (o.made g d had)
        | inr other ↦ o.pooled c (rw other at p)
      ];
      once = (o.taken g d had, o.once);
    }

serve_conn_at-Owned :
    (choice : Choice) (g : ℕ) (s : Stage) (w : Serving)
    → w.stages g ≡ s
    → IsOwned w
    → Owned (serve_conn_at choice g s w)
unfolding serve_conn_at
serve_conn_at-Owned choice g arrived w e o = acquire_conn-Owned choice.pooled g w o
serve_conn_at-Owned choice g (acquired d) w e o =
    tracks-IsOwned (set_stage g (serving d) w) (d ∷ other_names d w.conns)
      (keeps-IsOwned w g (serving d) (λ c p. rw e p) o)
serve_conn_at-Owned choice g (serving d) w e o = elim (Bool-cases choice.takes_over) [
  | inl on ↦ rw on (keeps-IsOwned w g (hijacked d) (λ c p. rw e p) o)
  | inr off ↦ rw off (keeps-IsOwned w g (closing d) (λ c p. rw e p) o)
]
serve_conn_at-Owned choice g (closing d) w e o = keeps-IsOwned w g (releasing d) (λ c p. rw e p) o
serve_conn_at-Owned choice g (releasing d) w e o = released-IsOwned w g d e o
serve_conn_at-Owned choice g (hijacked d) w e o =
    tracks-IsOwned (set_stage g gone w) (other_names d w.conns)
      (keeps-IsOwned w g gone (λ c p. cc) o)
serve_conn_at-Owned choice g (released d) w e o =
    tracks-IsOwned (set_stage g gone w) (other_names d w.conns)
      (keeps-IsOwned w g gone (λ c p. cc) o)
serve_conn_at-Owned choice g gone w e o = o

-- A server before its first connection.
pub record IsIdle (w : Serving) : Type 0 where
  pub stages : (g : ℕ) → w.stages g ≡ arrived
  pub conns : w.conns ≡ []
  pub free : w.free ≡ []

idle-IsOwned : (w : Serving) → IsIdle w → IsOwned w
idle-IsOwned w i = record {
  alone = λ g h c p q. cc (rw (i.stages g) at p);
  taken = λ g c p. rw i.free refl;
  made = λ g c p. absurd (no_true _ (rw (i.stages g) at p) refl);
  pooled = λ c p. absurd (no_true _ (rw i.free at p) refl);
  once = rw i.free tt;
}

pub step-IsOwned :
    (choice : Choice) (g : ℕ) (w w' : Serving)
    → IsOwned w
    → serve_conn_at choice g (w.stages g) w ≡ some w'
    → IsOwned w'
step-IsOwned choice g w w' o e = subst Owned e (serve_conn_at-Owned choice g (w.stages g) w refl o)

pub Run-IsOwned : (w w' : Serving) → IsIdle w → Run w w' → IsOwned w'
Run-IsOwned w _ i done = idle-IsOwned w i
Run-IsOwned w _ i (later w' w'' choice g r e) =
    step-IsOwned choice g w' w'' (Run-IsOwned w w' i r) e

-- In every run of the workers of a server, no two of them have one StateConn between them from
-- `AcquireConn` until it is released or, hijacked, no longer tracked, and one that a worker has is not
-- in the pool.
pub holds-alone :
    (w w' : Serving) (g h c : ℕ)
    → IsIdle w
    → Run w w'
    → holds (w'.stages g) c ≡ true
    → (g == h) ≡ false
    → (mem c w'.free ≡ false) × (holds (w'.stages h) c ≡ false)
holds-alone w w' g h c i r p apart =
    let o = Run-IsOwned w w' i r in
    (
      o.taken g c p,
      elim (Bool-cases (holds (w'.stages h) c)) [
        | inl has ↦ absurd (no_true _ (o.alone g h c p has) apart)
        | inr lacks ↦ lacks
      ],
    )
