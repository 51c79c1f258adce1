-- ===== src/Server/Serving/Tracked.antt =====
-- A connection that is served is tracked, if no StateConn is used again before its `delConn`.
use sofa_bolt_go.Base.{
  ℕ, ◌+◌, ◌≤◌, ◌<◌, ◌≡◌, refl, sym, subst, ◌∙◌, Bool, true, false, not, ◌&&◌, ◌||◌, Option, none,
  some, List, [], ◌∷◌, ◌==◌, if◌then◌else◌, arith, Bool-cases, inl, inr,
}
use sofa_bolt_go.Pool.{mem, without}
use sofa_bolt_go.Server.Closing.{other_names}
use sofa_bolt_go.Server.Serving.{
  Stage, arrived, gone, acquired, serving, closing, releasing, hijacked, released, Serving, Choice,
  set_stage, acquire_conn, serve_conn_at, Run, done, later,
}
use sofa_bolt_go.Server.Serving.Owned.{
  holds, IsOwned, IsIdle, Run-IsOwned, no_true, same_worker, self,
}

-- Between `addConn` and the end.
abbrev pub is_served : Stage → ℕ → Bool
is_served arrived d = false
is_served gone d = false
is_served (acquired c) d = false
is_served (serving c) d = c == d
is_served (closing c) d = c == d
is_served (releasing c) d = c == d
is_served (hijacked c) d = c == d
is_served (released c) d = false

-- Between `ReleaseConn` and `delConn`.
abbrev pub is_leaving : Stage → ℕ → Bool
is_leaving arrived d = false
is_leaving gone d = false
is_leaving (acquired c) d = false
is_leaving (serving c) d = false
is_leaving (closing c) d = false
is_leaving (releasing c) d = false
is_leaving (hijacked c) d = false
is_leaving (released c) d = c == d

-- No worker still has to take out of the tracked ones what the pool gives.
abbrev pub IsSettledAt : Stage → Option ℕ → Serving → Type 0
IsSettledAt arrived (some c) w = (h : ℕ) → is_leaving (w.stages h) c ≡ false
IsSettledAt arrived none w = Unit
IsSettledAt gone o w = Unit
IsSettledAt (acquired c) o w = Unit
IsSettledAt (serving c) o w = Unit
IsSettledAt (closing c) o w = Unit
IsSettledAt (releasing c) o w = Unit
IsSettledAt (hijacked c) o w = Unit
IsSettledAt (released c) o w = Unit

unfoldable pub IsSettledRun : (w w' : Serving) → Run w w' → Type 0
IsSettledRun w _ done = Unit
IsSettledRun w _ (later w' w'' choice g r e) =
    IsSettledAt (w'.stages g) choice.pooled w' × IsSettledRun w w' r

pub record IsTracked (w : Serving) : Type 0 where
  pub listed : (g c : ℕ) → is_served (w.stages g) c ≡ true → mem c w.conns ≡ true
  pub apart : (g h c : ℕ) → is_leaving (w.stages g) c ≡ true → holds (w.stages h) c ≡ false
  pub made : (g c : ℕ) → is_leaving (w.stages g) c ≡ true → c < w.next

served_held : (s : Stage) (c : ℕ) → is_served s c ≡ true → holds s c ≡ true
served_held arrived c p = p
served_held gone c p = p
served_held (acquired d) c p = cc
served_held (serving d) c p = p
served_held (closing d) c p = p
served_held (releasing d) c p = p
served_held (hijacked d) c p = p
served_held (released d) c p = p

mem-other_names : (c d : ℕ) (xs : List ℕ) → mem c (other_names d xs) ≡ (mem c xs && not (c == d))
mem-other_names c d [] = refl
mem-other_names c d (x ∷ xs) = ground (arith, mem-other_names c d xs)

module _ (w : Serving) (g : ℕ) (s : Stage) where
  abbrev moved : ℕ → Stage
  moved h = if g == h then s else w.stages h

  -- What is so of the worker that moves and of the others is so of all.
  pointwise :
      (P : ℕ → Stage → Type 0)
      → P g s
      → ((h : ℕ) → (g == h) ≡ false → P h (w.stages h))
      → (h : ℕ) → P h (moved h)
  pointwise P here there h = elim (Bool-cases (g == h)) [
    | inl e ↦ rw e (subst (λ n. P n s) (same_worker g h e) here)
    | inr e ↦ rw e (there h e)
  ]

  -- The worker moves; the tracked ones and the count may change.
  IsTracked-move :
      (conns free : List ℕ) (next : ℕ)
      → w.next ≤ next
      → ((c : ℕ) → is_served s c ≡ true → mem c conns ≡ true)
      → ((h c : ℕ) → (g == h) ≡ false → is_served (w.stages h) c ≡ true → mem c conns ≡ true)
      → ((h c : ℕ) → is_leaving s c ≡ true → holds (moved h) c ≡ false)
      → ((h c : ℕ) → is_leaving (w.stages h) c ≡ true → holds s c ≡ false)
      → ((c : ℕ) → is_leaving s c ≡ true → c < next)
      → IsTracked w
      → IsTracked (record w { stages = moved; conns = conns; free = free; next = next })
  IsTracked-move conns free next l own other mine theirs new t = record {
    listed =
        pointwise (λ h x. (c : ℕ) → is_served x c ≡ true → mem c conns ≡ true) own
          (λ h e c p. other h c e p);
    apart = λ i h c.
        pointwise (λ k x. is_leaving x c ≡ true → holds (moved h) c ≡ false) (mine h c)
          (λ k e p. pointwise (λ n y. holds y c ≡ false) (theirs k c p) (λ n f. t.apart k n c p) h)
          i;
    made =
        pointwise (λ h x. (c : ℕ) → is_leaving x c ≡ true → c < next) new
          (λ h e c p. omega (arith, t.made h c p, l));
  }

differ : (c d : ℕ) (a : Bool) → (a ≡ true) → ((c == d) ≡ false) → (a && not (c == d)) ≡ true
differ c d a p e = ground (arith, p, e)

-- What a worker is served with is another's, or not tracked any longer.
others_stay :
    (w : Serving) (g d : ℕ)
    → IsTracked w
    → ((h : ℕ) → (g == h) ≡ false → holds (w.stages h) d ≡ false)
    → (h c : ℕ) → (g == h) ≡ false
    → is_served (w.stages h) c ≡ true
    → mem c (other_names d w.conns) ≡ true
others_stay w g d t alone h c e p = elim (Bool-cases (c == d)) [
  | inr other ↦ mem-other_names c d w.conns ∙ differ c d (mem c w.conns) (t.listed h c p) other
  | inl same ↦
      let x : c ≡ d = same_worker c d same in
      absurd (
        no_true _ (served_held (w.stages h) d (subst (λ n. is_served (w.stages h) n ≡ true) x p))
          (alone h e))
]

-- The worker goes on with what it has.
goes_on :
    (w : Serving) (g : ℕ) (s : Stage)
    → ((c : ℕ) → is_served s c ≡ true → is_served (w.stages g) c ≡ true)
    → ((c : ℕ) → is_leaving s c ≡ false)
    → ((c : ℕ) → holds (w.stages g) c ≡ false → holds s c ≡ false)
    → IsTracked w
    → IsTracked (set_stage g s w)
goes_on w g s same still less t =
    IsTracked-move w g s w.conns w.free w.next (omega arith) (λ c p. t.listed g c (same c p))
      (λ h c e p. t.listed h c p) (λ h c p. absurd (no_true _ p (still c)))
      (λ h c p. less c (t.apart h g c p)) (λ c p. absurd (no_true _ p (still c))) t

alone_with :
    (w : Serving) (g d : ℕ)
    → IsOwned w
    → holds (w.stages g) d ≡ true
    → (h : ℕ) → (g == h) ≡ false
    → holds (w.stages h) d ≡ false
alone_with w g d o p h e = elim (Bool-cases (holds (w.stages h) d)) [
  | inl has ↦ absurd (no_true _ (o.alone g h d p has) e)
  | inr lacks ↦ lacks
]

front : (d c : ℕ) (b : Bool) → (d == c) ≡ true → (c == d || b) ≡ true
front d c b p = ground (arith, p)

behind_front : (d c : ℕ) (b : Bool) → b ≡ true → (c == d || b) ≡ true
behind_front d c b p = ground (arith, p)

abbrev Tracks : Option Serving → Type 0
Tracks none = Unit
Tracks (some w) = IsTracked w

acquire_conn-Tracks :
    (pooled : Option ℕ) (g : ℕ) (w : Serving)
    → IsSettledAt arrived pooled w
    → IsTracked w
    → Tracks (acquire_conn pooled g w)
unfolding acquire_conn
acquire_conn-Tracks (some d) g w free t = elim (Bool-cases (mem d w.free)) [
  | inr away ↦ rw away tt
  | inl there ↦ rw there (
      IsTracked-move w g (acquired d) w.conns (without d w.free) w.next (omega arith) (λ c p. cc)
        (λ h c e p. t.listed h c p) (λ h c p. cc) (λ h c p. unless h c p) (λ c p. cc) t)
]
  where
    unless : (h c : ℕ) → is_leaving (w.stages h) c ≡ true → (d == c) ≡ false
    unless h c p = elim (Bool-cases (d == c)) [
      | inl same ↦ absurd (
          no_true _ (subst (λ n. is_leaving (w.stages h) n ≡ true) (sym (same_worker d c same)) p)
            (free h))
      | inr other ↦ other
    ]
acquire_conn-Tracks none g w free t =
    IsTracked-move w g (acquired w.next) w.conns w.free (w.next + 1) (omega arith) (λ c p. cc)
      (λ h c e p. t.listed h c p) (λ h c p. cc) (λ h c p. below w.next c (t.made h c p)) (λ c p. cc)
      t
  where
    below : (n c : ℕ) → c < n → (n == c) ≡ false
    below n c l = ground (arith, l)

leaves-IsTracked :
    (w : Serving) (g d : ℕ)
    → ((h : ℕ) → (g == h) ≡ false → holds (w.stages h) d ≡ false)
    → IsTracked w
    → IsTracked (record (set_stage g gone w) { conns = other_names d w.conns })
leaves-IsTracked w g d alone t =
    IsTracked-move w g gone (other_names d w.conns) w.free w.next (omega arith) (λ c p. cc)
      (others_stay w g d t alone) (λ h c p. cc) (λ h c p. refl) (λ c p. cc) t

serve_conn_at-Tracks :
    (choice : Choice) (g : ℕ) (s : Stage) (w : Serving)
    → w.stages g ≡ s
    → IsOwned w
    → IsSettledAt s choice.pooled w
    → IsTracked w
    → Tracks (serve_conn_at choice g s w)
unfolding serve_conn_at
serve_conn_at-Tracks choice g arrived w e o u t = acquire_conn-Tracks choice.pooled g w u t
serve_conn_at-Tracks choice g (acquired d) w e o u t =
    let had : holds (w.stages g) d ≡ true = rw e (self d) in
    IsTracked-move w g (serving d) (d ∷ other_names d w.conns) w.free w.next (omega arith)
      (λ c p. front d c (mem c (other_names d w.conns)) p)
      (λ h c f p.
        behind_front d c (mem c (other_names d w.conns))
          (others_stay w g d t (alone_with w g d o had) h c f p))
      (λ h c p. cc) (λ h c p. rw e at (t.apart h g c p)) (λ c p. cc) t
serve_conn_at-Tracks choice g (serving d) w e o u t = elim (Bool-cases choice.takes_over) [
  | inl on ↦ rw on (goes_on w g (hijacked d) (λ c p. rw e p) (λ c. refl) (λ c p. rw e at p) t)
  | inr off ↦ rw off (goes_on w g (closing d) (λ c p. rw e p) (λ c. refl) (λ c p. rw e at p) t)
]
serve_conn_at-Tracks choice g (closing d) w e o u t =
    goes_on w g (releasing d) (λ c p. rw e p) (λ c. refl) (λ c p. rw e at p) t
serve_conn_at-Tracks choice g (releasing d) w e o u t =
    let had : holds (w.stages g) d ≡ true = rw e (self d) in
    IsTracked-move w g (released d) w.conns (d ∷ w.free) w.next (omega arith) (λ c p. cc)
      (λ h c f p. t.listed h c p)
      (λ h c p.
        subst (λ n. holds (moved w g (released d) h) n ≡ false) (same_worker d c p)
          (pointwise w g (released d) (λ n y. holds y d ≡ false) refl
            (λ n f. alone_with w g d o had n f) h))
      (λ h c p. refl) (λ c p. subst (λ n. n < w.next) (same_worker d c p) (o.made g d had)) t
serve_conn_at-Tracks choice g (hijacked d) w e o u t =
    leaves-IsTracked w g d (alone_with w g d o (rw e (self d))) t
serve_conn_at-Tracks choice g (released d) w e o u t =
    leaves-IsTracked w g d (λ h f. t.apart g h d (rw e (self d))) t
serve_conn_at-Tracks choice g gone w e o u t = t

idle-IsTracked : (w : Serving) → IsIdle w → IsTracked w
idle-IsTracked w i = record {
  listed = λ g c p. absurd (no_true _ (rw (i.stages g) at p) refl);
  apart = λ g h c p. absurd (no_true _ (rw (i.stages g) at p) refl);
  made = λ g c p. absurd (no_true _ (rw (i.stages g) at p) refl);
}

Run-IsTracked : (w w' : Serving) (r : Run w w') → IsIdle w → IsSettledRun w w' r → IsTracked w'
unfolding IsSettledRun
Run-IsTracked w _ done i u = idle-IsTracked w i
Run-IsTracked w _ (later w' w'' choice g r e) i (here, u) = subst Tracks e (
    serve_conn_at-Tracks choice g (w'.stages g) w' refl (Run-IsOwned w w' i r) here
      (Run-IsTracked w w' r i u))

-- In every run of the workers of a server, with no `closeConns` between their steps, in which the pool gives no StateConn that a worker has
-- released and has still to take out of the tracked ones: what a worker serves, from `addConn` on, is
-- tracked, and so is seen by `Shutdown`.
pub served-tracked :
    (w w' : Serving) (r : Run w w') (g c : ℕ)
    → IsIdle w
    → IsSettledRun w w' r
    → is_served (w'.stages g) c ≡ true
    → mem c w'.conns ≡ true
served-tracked w w' r g c i u p = (Run-IsTracked w w' r i u).listed g c p
