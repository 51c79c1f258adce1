-- ===== src/Client/Table.antt =====
-- sofabolt/client.go: `requests`, the map from request ids to pending invocations, with the three
-- functions on it that hold the client's lock. An invocation's context is an address.
use sofa_bolt_go.Base.{ℕ, Option, none, some, List, [], ◌∷◌, ◌==◌, if◌then◌else◌}

abbrev pub find : ℕ → List (ℕ × ℕ) → Option ℕ
find r [] = none
find r ((k, i) ∷ xs) = if k == r then some i else find r xs

-- `delRequestContext`.
abbrev pub remove : ℕ → List (ℕ × ℕ) → List (ℕ × ℕ)
remove r [] = []
remove r ((k, i) ∷ xs) = let rest = remove r xs in if k == r then rest else (k, i) ∷ rest

-- `addRequestContext`.
abbrev pub insert : ℕ → ℕ → List (ℕ × ℕ) → List (ℕ × ℕ)
insert r i xs = (r, i) ∷ remove r xs

-- `getAndDelRequestContext`.
abbrev pub get_and_del : ℕ → List (ℕ × ℕ) → Option ℕ × List (ℕ × ℕ)
get_and_del r xs = (find r xs, remove r xs)

-- The store of contexts: an address to what stands there.
module _ {ℓ} {A : Type ℓ} where
  abbrev pub update : (ℕ → A) → ℕ → A → ℕ → A
  update f i c j = if i == j then c else f j
