-- ===== src/KeepAliver.antt =====
-- sofabolt/keepaliver.go: pools of clients by address, from which a client is taken until it is worn
-- out. Each operation is taken whole: the pools' locks are between its parts in the source.
pub mod Taking
pub mod Cleanup
pub mod Heartbeat
pub mod Schemes
use sofa_bolt_go.Base.{
  ℕ, zero, suc, ◌+◌, ◌≡◌, Bool, true, false, ◌&&◌, ◌||◌, Option, none, some, List, [], ◌∷◌, Bytes,
  equal, ltb, leb, ◌==◌, if◌then◌else◌,
}
use sofa_bolt_go.Pool
use sofa_bolt_go.Pool.{Pool}

-- The pools of one scheme, the options, what the clients' metrics say, the clients that wait to be
-- closed with the checks they had (the first entry of a client counts), and those that `Close` was called on.
pub record KeepAliver : Type 0 where
  pub min_client_in_pool : ℕ
  pub ma_client_conn_used : ℕ
  pub used : ℕ → ℕ
  pub references : ℕ → ℕ
  pub dying : List (ℕ × ℕ)
  pub closed : List ℕ

abbrev pub Pools : Type 0
Pools = List (Bytes × Pool)

abbrev pub load : Bytes → Pools → Option Pool
load addr [] = none
load addr ((a, p) ∷ m) = if equal a addr then some p else load addr m

-- What a pool that is in the map has become.
abbrev pub store : Bytes → Pool → Pools → Pools
store addr p [] = (addr, p) ∷ []
store addr p ((a, q) ∷ m) =
    let rest = store addr p m in if equal a addr then (a, p) ∷ m else (a, q) ∷ rest

-- A client that has been used as often as the options allow, in a pool with another one.
unfoldable pub is_worn : KeepAliver → Pool → ℕ → Bool
is_worn ka p c =
    leb 2 (Pool.size p) && (ltb 0 ka.ma_client_conn_used && leb ka.ma_client_conn_used (ka.used c))

unfoldable pub gracefully_close : ℕ → KeepAliver → KeepAliver
gracefully_close c ka =
    if ltb 0 (ka.references c)
    then record ka { dying = (c, 1) ∷ ka.dying }
    else record ka { closed = c ∷ ka.closed }

-- A pool takes a client that is forced on it, or while it has few.
abbrev pub accepts : Bool → KeepAliver → Pool → Bool
accepts force ka p =
    force || (ltb 0 ka.min_client_in_pool && leb (Pool.size p) ka.min_client_in_pool)

-- `put`: what it returns, and the pools.
unfoldable pub put : Bool → Bytes → ℕ → KeepAliver → Pools → Bool × Pools
put force addr c ka m = at (load addr m)
  where
    at : Option Pool → Bool × Pools
    at none =
        let p = Pool.push c Pool.new in
        if is_worn ka p c then (false, store addr p m) else (accepts force ka p, store addr p m)
    at (some p) =
        if is_worn ka p c
        then (false, m)
        else if accepts force ka p
        then (true, store addr (Pool.push c p) m)
        else (false, m)

-- Behind a turn of the pool: the client taken, or another try without it.
abbrev pub take_or :
    KeepAliver
    → (ℕ → Pool → Option (Option ℕ × Pool × KeepAliver))
    → Option ℕ × Pool
    → Option (Option ℕ × Pool × KeepAliver)
take_or ka retry (none, q) = some (none, q, ka)
take_or ka retry (some c, q) = if is_worn ka q c then retry c q else some (some c, q, ka)

-- The loop of `get` on a pool, with fuel.
unfoldable pub get_from : ℕ → KeepAliver → Pool → Option (Option ℕ × Pool × KeepAliver)
get_from zero ka p = none
get_from (suc fuel) ka p =
    take_or ka (λ c q. get_from fuel (gracefully_close c ka) (Pool.delete c q)) (Pool.get p)

-- `get`: there are no more turns than clients.
unfoldable pub get : Bytes → KeepAliver → Pools → Option (Option ℕ × Pools × KeepAliver)
get addr ka m = at (load addr m)
  where
    taken : Option (Option ℕ × Pool × KeepAliver) → Option (Option ℕ × Pools × KeepAliver)
    taken none = none
    taken (some (o, q, ka')) = some (o, store addr q m, ka')

    at : Option Pool → Option (Option ℕ × Pools × KeepAliver)
    at none = some (none, m, ka)
    at (some p) = taken (get_from (suc (Pool.size p)) ka p)

unfoldable pub del : Bytes → ℕ → Pools → Bool × Pools
del addr c m = at (load addr m)
  where
    at : Option Pool → Bool × Pools
    at none = (false, m)
    at (some p) = (true, store addr (Pool.delete c p) m)
