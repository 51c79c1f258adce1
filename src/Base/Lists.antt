-- ===== src/Base/Lists.antt =====
-- Lists measured and cut by native numbers, and writes at an offset.
use Prim.Native.Nat.{ℕ, zero, suc, ◌+◌, ◌-◌, ◌≤◌}
use Prim.Native.Nat.add
use mathlib.Core.Path.{◌≡◌, refl, ap}
use mathlib.Core.List.{List, [], ◌∷◌, ◌++◌}
use native.Mathlib.Omega.{arith}

module _ {ℓ} {A : Type ℓ} where
  abbrev pub length : List A → ℕ
  length [] = 0
  length (x ∷ xs) = suc (length xs)

  abbrev pub get_or : List A → ℕ → A → A
  get_or [] i d = d
  get_or (x ∷ xs) zero d = x
  get_or (x ∷ xs) (suc i) d = get_or xs i d

  abbrev pub take : ℕ → List A → List A
  take zero xs = []
  take (suc n) [] = []
  take (suc n) (x ∷ xs) = x ∷ take n xs

  abbrev pub drop : ℕ → List A → List A
  drop zero xs = xs
  drop (suc n) [] = []
  drop (suc n) (x ∷ xs) = drop n xs

  pub length-append : (xs ys : List A) → length (xs ++ ys) ≡ length xs + length ys
  length-append [] ys = omega arith
  length-append (x ∷ xs) ys = omega (arith, length-append xs ys)

  pub length-drop : (n : ℕ) (xs : List A) → length (drop n xs) ≡ length xs - n
  length-drop zero xs = omega arith
  length-drop (suc n) [] = omega arith
  length-drop (suc n) (x ∷ xs) = omega (arith, length-drop n xs)

  pub length-take : (n : ℕ) (xs : List A) → n ≤ length xs → length (take n xs) ≡ n
  length-take zero xs h = refl
  length-take (suc n) [] h = absurd (omega arith)
  length-take (suc n) (x ∷ xs) h = ap suc (length-take n xs (omega arith))

  pub take-append-drop : (n : ℕ) (xs : List A) → take n xs ++ drop n xs ≡ xs
  take-append-drop zero xs = refl
  take-append-drop (suc n) [] = refl
  take-append-drop (suc n) (x ∷ xs) = ap (λ (t : List A). x ∷ t) (take-append-drop n xs)

  pub take-append : (xs ys : List A) → take (length xs) (xs ++ ys) ≡ xs
  take-append [] ys = refl
  take-append (x ∷ xs) ys = ap (λ (t : List A). x ∷ t) (take-append xs ys)

  pub drop-append : (xs ys : List A) → drop (length xs) (xs ++ ys) ≡ ys
  drop-append [] ys = refl
  drop-append (x ∷ xs) ys = drop-append xs ys

  pub take-append_eq : (n : ℕ) (xs ys : List A) → n ≡ length xs → take n (xs ++ ys) ≡ xs
  take-append_eq n xs ys e = rw e (take-append xs ys)

  pub drop-append_eq : (n : ℕ) (xs ys : List A) → n ≡ length xs → drop n (xs ++ ys) ≡ ys
  drop-append_eq n xs ys e = rw e (drop-append xs ys)

  pub drop-drop : (n m : ℕ) (xs : List A) → drop m (drop n xs) ≡ drop (n + m) xs
  drop-drop zero m xs = simp add.zero
  drop-drop (suc n) zero [] = simp add.suc
  drop-drop (suc n) (suc m) [] = simp add.suc
  drop-drop (suc n) m (x ∷ xs) = simp add.suc (drop-drop n m xs)

  pub drop_all : (n : ℕ) (xs : List A) → length xs ≤ n → drop n xs ≡ []
  drop_all zero [] h = refl
  drop_all zero (x ∷ xs) h = absurd (omega arith)
  drop_all (suc n) [] h = refl
  drop_all (suc n) (x ∷ xs) h = drop_all n xs (omega arith)

  abbrev pub replicate : ℕ → A → List A
  replicate zero a = []
  replicate (suc n) a = a ∷ replicate n a

  pub length-replicate : (n : ℕ) (a : A) → length (replicate n a) ≡ n
  length-replicate zero a = refl
  length-replicate (suc n) a = ap suc (length-replicate n a)

  -- Reading inside the front part does not see the back part.
  pub take_within : (n : ℕ) (d s : List A) → n ≤ length d → take n (d ++ s) ≡ take n d
  take_within zero d s h = refl
  take_within (suc n) [] s h = absurd (omega arith)
  take_within (suc n) (x ∷ d) s h = ap (λ (t : List A). x ∷ t) (take_within n d s (omega arith))

  pub length-append_take-drop :
      (n : ℕ) (xs : List A) → length (take n xs) + length (drop n xs) ≡ length xs
  length-append_take-drop zero xs = simp add.zero
  length-append_take-drop (suc n) [] = omega arith
  length-append_take-drop (suc n) (x ∷ xs) = omega (arith, length-append_take-drop n xs)

module _ {ℓ} {A : Type ℓ} where
  -- `copy(b[i:], src)`: writes over `b` from offset `i`, and stops at the end of either.
  abbrev pub overwrite : List A → ℕ → List A → List A
  overwrite [] i src = []
  overwrite (x ∷ b) (suc i) src = x ∷ overwrite b i src
  overwrite (x ∷ b) zero [] = x ∷ b
  overwrite (x ∷ b) zero (y ∷ src) = y ∷ overwrite b zero src

  overwrite_front :
      (b src : List A) → length src ≤ length b → overwrite b zero src ≡ src ++ drop (length src) b
  overwrite_front [] [] h = refl
  overwrite_front [] (y ∷ src) h = absurd (omega arith)
  overwrite_front (x ∷ b) [] h = refl
  overwrite_front (x ∷ b) (y ∷ src) h =
      ap (λ (t : List A). y ∷ t) (overwrite_front b src (omega arith))

  pub overwrite-append :
      (p b src : List A)
      → length src ≤ length b
      → overwrite (p ++ b) (length p) src ≡ p ++ src ++ drop (length src) b
  overwrite-append [] b src h = overwrite_front b src h
  overwrite-append (x ∷ p) b src h = ap (λ (t : List A). x ∷ t) (overwrite-append p b src h)

  overwrite-nil : (b : List A) (i : ℕ) → overwrite b i [] ≡ b
  overwrite-nil [] i = refl
  overwrite-nil (x ∷ b) zero = refl
  overwrite-nil (x ∷ b) (suc i) = ap (λ (t : List A). x ∷ t) (overwrite-nil b i)

  pub length-overwrite : (b : List A) (i : ℕ) (src : List A) → length (overwrite b i src) ≡ length b
  length-overwrite [] i src = refl
  length-overwrite (x ∷ b) (suc i) src = ap suc (length-overwrite b i src)
  length-overwrite (x ∷ b) zero [] = refl
  length-overwrite (x ∷ b) zero (y ∷ src) = ap suc (length-overwrite b zero src)

  -- A write that fits in the front part leaves the back part alone.
  pub overwrite_within :
      (d s : List A) (i : ℕ) (src : List A)
      → i + length src ≤ length d
      → overwrite (d ++ s) i src ≡ overwrite d i src ++ s
  overwrite_within [] s zero [] h = overwrite-nil s 0
  overwrite_within [] s zero (y ∷ src) h = absurd (omega arith)
  overwrite_within [] s (suc i) src h = absurd (omega arith)
  overwrite_within (x ∷ d) s (suc i) src h =
      ap (λ (t : List A). x ∷ t) (overwrite_within d s i src (omega arith))
  overwrite_within (x ∷ d) s zero [] h = refl
  overwrite_within (x ∷ d) s zero (y ∷ src) h =
      ap (λ (t : List A). y ∷ t) (overwrite_within d s zero src (omega arith))
