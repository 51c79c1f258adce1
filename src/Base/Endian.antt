-- ===== src/Base/Endian.antt =====
-- Bytes and big-endian integers (Go's encoding/binary), and `bytes.Equal`.
use Prim.Native.Nat.{ℕ, ◌+◌, ◌*◌, ◌/◌, ◌%◌, ◌≤◌, ◌<◌, zero, suc}
use Prim.Native.Char.{code}
use Prim.Native.String.{String}
use mathlib.Core.Path.{◌≡◌, refl}
use mathlib.Core.Logic.{◌↔◌}
use mathlib.Core.Bool.{Bool, true, false, ◌&&◌}
use mathlib.Core.List.{List, [], ◌∷◌, ◌++◌}
use native.Mathlib.Omega.{arith}
use sofa_bolt_go.Base.Tests.{◌==◌}
use sofa_bolt_go.Base.Lists.{get_or, take, drop}

-- A byte slice or string; its elements are below 256 where a theorem says so.
abbrev pub Bytes : Type 0
Bytes = List ℕ

abbrev pub codes : String → Bytes
codes String.[] = []
codes (String.◌∷◌ c s) = code c ∷ codes s

-- `bytes.Equal`, and `==` on strings.
unfoldable pub equal : Bytes → Bytes → Bool
equal [] [] = true
equal (x ∷ xs) (y ∷ ys) = x == y && equal xs ys
equal _ _ = false

pub equal→≡ : (xs ys : Bytes) → equal xs ys ≡ true → xs ≡ ys
unfolding equal
equal→≡ [] [] h = refl
equal→≡ [] (y ∷ ys) h = cc
equal→≡ (x ∷ xs) [] h = cc
equal→≡ (x ∷ xs) (y ∷ ys) h = ground (arith, equal→≡ xs ys)

pub equal_refl : (xs : Bytes) → equal xs xs ≡ true
unfolding equal
equal_refl [] = refl
equal_refl (x ∷ xs) = ground (arith, equal_refl xs)

pub equal_iff : (xs ys : Bytes) → (equal xs ys ≡ true) ↔ (xs ≡ ys)
equal_iff xs ys = (equal→≡ xs ys, λ e. rw e (equal_refl ys))

-- What PutUint16, PutUint32 and PutUint64 write, and `byte(v)`.
abbrev pub be8 : ℕ → Bytes
be8 v = v % 256 ∷ []

abbrev pub be16 : ℕ → Bytes
be16 v = v / 256 % 256 ∷ v % 256 ∷ []

abbrev pub be32 : ℕ → Bytes
be32 v = v / 16777216 % 256 ∷ v / 65536 % 256 ∷ v / 256 % 256 ∷ v % 256 ∷ []

abbrev pub be64 : ℕ → Bytes
be64 v = be32 (v / 4294967296) ++ be32 v

abbrev pub u32_max : ℕ
u32_max = 4294967295

-- Uint16, Uint32 and Uint64 at an offset; the callers stay in range.
abbrev pub uint16_at : Bytes → ℕ → ℕ
uint16_at b i = get_or b i 0 * 256 + get_or b (i + 1) 0

abbrev pub uint32_at : Bytes → ℕ → ℕ
uint32_at b i =
    get_or b i 0 * 16777216
    + get_or b (i + 1) 0 * 65536
    + get_or b (i + 2) 0 * 256
    + get_or b (i + 3) 0

abbrev pub uint64_at : Bytes → ℕ → ℕ
uint64_at b i = uint32_at b i * 4294967296 + uint32_at b (i + 4)

pub from_be8 : (v : ℕ) → v < 256 → v % 256 ≡ v
from_be8 v h = omega arith

pub from_be16 : (v : ℕ) → v < 65536 → v / 256 % 256 * 256 + v % 256 ≡ v
from_be16 v h = omega arith

pub from_be32 :
    (v : ℕ)
    → v < 4294967296
    → v / 16777216 % 256 * 16777216 + v / 65536 % 256 * 65536 + v / 256 % 256 * 256 + v % 256 ≡ v
from_be32 v h = omega arith

-- The elements of a list of bytes are below 256.
abbrev pub AreBytes : Bytes → Type 0
AreBytes [] = Unit
AreBytes (x ∷ xs) = (x < 256) × AreBytes xs

pub AreBytes-take : (n : ℕ) (xs : Bytes) → AreBytes xs → AreBytes (take n xs)
AreBytes-take zero xs h = tt
AreBytes-take (suc n) [] h = tt
AreBytes-take (suc n) (x ∷ xs) (b, h) = (b, AreBytes-take n xs h)

pub AreBytes-drop : (n : ℕ) (xs : Bytes) → AreBytes xs → AreBytes (drop n xs)
AreBytes-drop zero xs h = h
AreBytes-drop (suc n) [] h = tt
AreBytes-drop (suc n) (x ∷ xs) (b, h) = AreBytes-drop n xs h

pub AreBytes-append : (xs ys : Bytes) → AreBytes xs → AreBytes ys → AreBytes (xs ++ ys)
AreBytes-append [] ys h k = k
AreBytes-append (x ∷ xs) ys (b, h) k = (b, AreBytes-append xs ys h k)

get_or-lt : (xs : Bytes) (i : ℕ) → AreBytes xs → get_or xs i 0 < 256
get_or-lt [] i h = omega arith
get_or-lt (x ∷ xs) zero (b, h) = b
get_or-lt (x ∷ xs) (suc i) (b, h) = get_or-lt xs i h

pub uint32_at-le : (xs : Bytes) (i : ℕ) → AreBytes xs → uint32_at xs i ≤ u32_max
uint32_at-le xs i h = omega (
  arith,
  get_or-lt xs i h,
  get_or-lt xs (i + 1) h,
  get_or-lt xs (i + 2) h,
  get_or-lt xs (i + 3) h,
)
