-- ===== src/Pool.antt =====
-- sofabolt/pool.go: the clients for one address, taken in turn. A client is an address.
pub mod Members
use sofa_bolt_go.Base.{
  ℕ, zero, suc, ◌+◌, ◌%◌, Bool, false, ◌||◌, Option, none, some, List, [], ◌∷◌, ◌++◌, ◌==◌,
  if◌then◌else◌, length, get_or,
}

pub record Pool : Type 0 where
  pub clients : List ℕ
  pub next : ℕ

unfoldable pub new : Pool
new = record { clients = []; next = 0 }

unfoldable pub size : Pool → ℕ
size p = length p.clients

-- The first occurrence goes.
abbrev pub without : ℕ → List ℕ → List ℕ
without c [] = []
without c (x ∷ xs) = let rest = without c xs in if c == x then xs else x ∷ rest

unfoldable pub delete : ℕ → Pool → Pool
delete c p = record p { clients = without c p.clients }

unfoldable pub delete_clients : List ℕ → Pool → Pool
delete_clients [] p = p
delete_clients (c ∷ cs) p = delete_clients cs (delete c p)

unfoldable pub push : ℕ → Pool → Pool
push c p = record p { clients = p.clients ++ c ∷ [] }

-- The client behind the last one taken.
unfoldable pub get : Pool → Option ℕ × Pool
get p = at (length p.clients)
  where
    at : ℕ → Option ℕ × Pool
    at zero = (none, p)
    at (suc n) =
        let next = (p.next + 1) % suc n in
        (some (get_or p.clients next 0), record p { next = next })

-- Is the client in the list?
abbrev pub mem : ℕ → List ℕ → Bool
mem c [] = false
mem c (x ∷ xs) = c == x || mem c xs
