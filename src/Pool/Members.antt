-- ===== src/Pool/Members.antt =====
-- Lists of addresses in which each stands once.
use sofa_bolt_go.Base.{
  ℕ, ◌≡◌, refl, ◌∙◌, false, not, ◌&&◌, List, [], ◌∷◌, ◌==◌, arith, Bool-cases, inl, inr,
}
use sofa_bolt_go.Pool.{mem, without}

abbrev pub AreDistinct : List ℕ → Type 0
AreDistinct [] = Unit
AreDistinct (c ∷ cs) = (mem c cs ≡ false) × AreDistinct cs

pub mem-without :
    (c d : ℕ) (xs : List ℕ) → AreDistinct xs → mem c (without d xs) ≡ (mem c xs && not (c == d))
mem-without c d [] u = refl
mem-without c d (x ∷ xs) (a, u) = ground (arith, mem-without c d xs u, a)

pub without-AreDistinct : (d : ℕ) (xs : List ℕ) → AreDistinct xs → AreDistinct (without d xs)
without-AreDistinct d [] u = tt
without-AreDistinct d (x ∷ xs) (a, u) = elim (Bool-cases (d == x)) [
  | inl same ↦ rw same u
  | inr other ↦ rw other (mem-without x d xs u ∙ rw a refl, without-AreDistinct d xs u)
]
