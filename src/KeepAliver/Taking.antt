-- ===== src/KeepAliver/Taking.antt =====
-- Taking a client from a pool, and putting one there.
use sofa_bolt_go.Base.{
  ℕ, ◌≡◌, refl, Bool, true, false, Option, none, some, [], ◌∷◌, Bytes, equal, equal_refl,
  if◌then◌else◌, Bool-cases, inl, inr,
}
use sofa_bolt_go.Pool
use sofa_bolt_go.Pool.{Pool, mem}
use sofa_bolt_go.KeepAliver.{KeepAliver, Pools, load, store, is_worn, put, accepts}

-- The client and the pool that `get_from` gives.
abbrev pub Taken : KeepAliver → Pool → Option ℕ → Pool → Type 0
Taken ka p none q = p.clients ≡ []
Taken ka p (some c) q =
    (mem c p.clients ≡ true) × (mem c q.clients ≡ true) × (is_worn ka q c ≡ false)

load-store : (addr : Bytes) (p : Pool) (m : Pools) → load addr (store addr p m) ≡ some p
load-store addr p [] = rw (equal_refl addr) refl
load-store addr p ((a, q) ∷ m) = elim (Bool-cases (equal a addr)) [
  | inl same ↦ rw (same, same) refl
  | inr other ↦ rw (other, other) (load-store addr p m)
]

-- The pool at the address after `put` returned `accepted`.
abbrev pub pool_after : ℕ → Bool → Option Pool → Pool
pool_after c accepted none = Pool.push c Pool.new
pool_after c accepted (some p) = if accepted then Pool.push c p else p

put_at :
    (force : Bool) (addr : Bytes) (c : ℕ) (ka : KeepAliver) (m : Pools) (o : Option Pool)
    → load addr m ≡ o
    → load addr (put force addr c ka m).1 ≡ some (pool_after c (put force addr c ka m).0 o)
unfolding put
put_at force addr c ka m none e = rw e (elim (Bool-cases (is_worn ka (Pool.push c Pool.new) c)) [
  | inl worn ↦ rw worn (load-store addr (Pool.push c Pool.new) m)
  | inr good ↦ rw good (load-store addr (Pool.push c Pool.new) m)
])
put_at force addr c ka m (some p) e = rw e (elim (Bool-cases (is_worn ka p c)) [
  | inl worn ↦ rw worn e
  | inr good ↦ rw good (elim (Bool-cases (accepts force ka p)) [
    | inl taken ↦ rw taken (load-store addr (Pool.push c p) m)
    | inr refused ↦ rw refused e
  ])
])

-- After `put`, the pool at the address has the client at its end if `put` returned true, and is as
-- it was if not. Where there was no pool, the new one with the client stays in either case.
pub load-put :
    (force : Bool) (addr : Bytes) (c : ℕ) (ka : KeepAliver) (m : Pools)
    → load addr (put force addr c ka m).1
      ≡ some (pool_after c (put force addr c ka m).0 (load addr m))
load-put force addr c ka m = put_at force addr c ka m (load addr m) refl
