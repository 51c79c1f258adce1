-- ===== src/KeepAliver/Schemes.antt =====
-- sofabolt/keepaliver.go: the pools of both schemes, `Put`, `Get`, `Del`, and a tick of `doHeartbeat`,
-- which goes through the same pools twice.
use sofa_bolt_go.Base.{ℕ, ◌+◌, Bool, Option, none, some, [], ◌∷◌, Bytes, if◌then◌else◌}
use sofa_bolt_go.KeepAliver
use sofa_bolt_go.KeepAliver.{KeepAliver, Pools}
use sofa_bolt_go.KeepAliver.Heartbeat.{Beat, check_clients}

pub record Schemes : Type 0 where
  pub raw : Pools
  pub tls : Pools

abbrev pub scheme : Bool → Schemes → Pools
scheme on s = if on then s.tls else s.raw

abbrev pub with_scheme : Bool → Pools → Schemes → Schemes
with_scheme on m s = if on then record s { tls = m } else record s { raw = m }

unfoldable pub put : Bool → Bool → Bytes → ℕ → KeepAliver → Schemes → Bool × Schemes
put on force addr c ka s =
    let done = KeepAliver.put force addr c ka (scheme on s) in (done.0, with_scheme on done.1 s)

unfoldable pub get : Bool → Bytes → KeepAliver → Schemes → Option (Option ℕ × Schemes × KeepAliver)
get on addr ka s = at (KeepAliver.get addr ka (scheme on s))
  where
    at : Option (Option ℕ × Pools × KeepAliver) → Option (Option ℕ × Schemes × KeepAliver)
    at none = none
    at (some (o, m, ka')) = some (o, with_scheme on m s, ka')

unfoldable pub del : Bool → Bytes → ℕ → Schemes → Bool × Schemes
del on addr c s =
    let done = KeepAliver.del addr c (scheme on s) in (done.0, with_scheme on done.1 s)

-- `Range` over the pools of a map, the `n`th with the world as it then is.
unfoldable pub check_pools : (ℕ → Beat) → ℕ → ℕ → Pools → KeepAliver → Pools × KeepAliver
check_pools beats t n [] ka = ([], ka)
check_pools beats t n ((addr, p) ∷ m) ka =
    let here = check_clients (beats n) t p ka in
    let rest = check_pools beats t (n + 1) m here.1 in ((addr, here.0) ∷ rest.0, rest.1)

-- A tick of `doHeartbeat`.
unfoldable pub tick : (ℕ → Beat) → (ℕ → Beat) → ℕ → Schemes → KeepAliver → Schemes × KeepAliver
tick first second t s ka =
    let once = check_pools first t 0 s.raw ka in
    let twice = check_pools second t 0 once.0 once.1 in (record s { raw = twice.0 }, twice.1)
