-- ===== src/StateConn/Packed.antt =====
-- The state and the time share a word without touching each other.
use sofa_bolt_go.Base.{
  ℕ, zero, suc, ◌+◌, ◌*◌, ◌/◌, ◌%◌, ◌^◌, ◌≤◌, ◌<◌, ◌≡◌, refl, ◌∙◌, sym, ap, arith, lt→ltb, ◌==◌,
  Bool, true, false, Bool-cases, inl, inr,
}
use Prim.Native.Nat.{min, max, digits, bit_and, bit_or, bit_and-bitwise, bit_or-bitwise}
use sofa_bolt_go.StateConn.{
  StateConn, pack_state, set_state, get_state, shift_right, close, state_closed,
}

-- The lowest `k` digits of a number, and a word of `k` ones.
low : ℕ → ℕ → ℕ
low zero a = 0
low (suc k) a = low k (a / 2) * 2 + a % 2

ones : ℕ → ℕ
ones zero = 0
ones (suc k) = suc (ones k * 2)

-- The digits of `s` stand where `a` has `k` zeros.
Fits : ℕ → ℕ → ℕ → Type 0
Fits zero a s = s ≡ 0
Fits (suc k) a s = (a % 2 ≡ 0) × Fits k (a / 2) (s / 2)

low-zero : (k : ℕ) → low k 0 ≡ 0
unfolding low
low-zero zero = refl
low-zero (suc k) = omega (arith, low-zero k)

half : (x : ℕ) → suc (x * 2) / 2 ≡ x
half x = omega arith

and_nil : (n a : ℕ) → digits (λ b. zero) min n a 0 ≡ 0
and_nil zero a = refl
and_nil (suc n) zero = refl
and_nil (suc n) (suc a) = omega (arith, and_nil n (suc a / 2))

and_ones : (k n a : ℕ) → a ≤ n → digits (λ b. zero) min n a (ones k) ≡ low k a
unfolding low ones
and_ones zero n a h = and_nil n a
and_ones (suc k) zero zero h = sym (low-zero (suc k))
and_ones (suc k) zero (suc a) h = absurd (omega arith)
and_ones (suc k) (suc n) zero h = sym (low-zero (suc k))
and_ones (suc k) (suc n) (suc a) h =
    rw (half (ones k)) (omega (arith, and_ones k n (suc a / 2) (omega arith)))

or_nil : (n a : ℕ) → a ≤ n → digits (λ b. b) max n a 0 ≡ a
or_nil zero zero h = refl
or_nil zero (suc a) h = absurd (omega arith)
or_nil (suc n) zero h = refl
or_nil (suc n) (suc a) h = omega (arith, or_nil n (suc a / 2) (omega arith))

or_Fits : (k n a s : ℕ) → a ≤ n → Fits k a s → digits (λ b. b) max n a s ≡ a + s
unfolding Fits
or_Fits zero n a s h f = rw f (or_nil n a h ∙ omega arith)
or_Fits (suc k) zero zero s h f = omega arith
or_Fits (suc k) zero (suc a) s h f = absurd (omega arith)
or_Fits (suc k) (suc n) zero s h f = omega arith
or_Fits (suc k) (suc n) (suc a) s h (even, f) =
    omega (arith, even, or_Fits k n (suc a / 2) (s / 2) (omega arith) f)

shifted-Fits : (now state : ℕ) → state < 256 → Fits 8 (now * 256) state
unfolding Fits
shifted-Fits now state b = (
  omega arith,
  (
    omega arith,
    (
      omega arith,
      (omega arith, (omega arith, (omega arith, (omega arith, (omega arith, omega arith))))),
    ),
  ),
)

unshifted : (now : ℕ) → now < 2 ^ 55 → now * 256 % 2 ^ 64 ≡ now * 256
unshifted now h = omega arith

pack_state-sum :
    (now state : ℕ) → now < 2 ^ 55 → state < 256 → pack_state now state ≡ now * 256 + state
unfolding pack_state
pack_state-sum now state h b =
    ap (λ v. bit_or v state) (unshifted now h)
    ∙ bit_or-bitwise (now * 256) state
    ∙ or_Fits 8 (now * 256) (now * 256) state (omega arith) (shifted-Fits now state b)

bit_and-255 : (v : ℕ) → bit_and v 255 ≡ v % 256
unfolding low ones
bit_and-255 v = bit_and-bitwise v 255 ∙ and_ones 8 v v (omega arith) ∙ omega arith

unpacked :
    (now state : ℕ)
    → now < 2 ^ 55
    → state < 256
    → (shift_right (now * 256 + state) ≡ now) × ((now * 256 + state) % 256 ≡ state)
unpacked now state h b =
    (rw (lt→ltb (now * 256 + state) (2 ^ 63) (omega arith)) (omega arith), omega arith)

-- `GetState` returns the time and the state of the last `SetState`, for a state of a uint8 and a
-- time below 2^55 seconds.
pub get_state-set_state :
    (now state : ℕ) (s : StateConn)
    → now < 2 ^ 55
    → state < 256
    → get_state (set_state now state s) ≡ (now, state)
unfolding get_state set_state
get_state-set_state now state s h b =
    rw (pack_state-sum now state h b, bit_and-255)
      (rw ((unpacked now state h b).0, (unpacked now state h b).1) refl)

is_closed : StateConn → Bool
is_closed s = (get_state s).1 == state_closed

closed_once : ℕ → StateConn → StateConn
closed_once now s = record (set_state now state_closed s) {
  closes = (set_state now state_closed s).closes + 1;
}

close_closed : (now : ℕ) (s : StateConn) → is_closed s ≡ true → close now s ≡ s
unfolding close is_closed
close_closed now s h = simp h

close_unclosed : (now : ℕ) (s : StateConn) → is_closed s ≡ false → close now s ≡ closed_once now s
unfolding close is_closed closed_once
close_unclosed now s h = simp h

closed_once-is_closed :
    (now : ℕ) (s : StateConn) → now < 2 ^ 55 → is_closed (closed_once now s) ≡ true
unfolding is_closed closed_once get_state
closed_once-is_closed now s h =
    ap (λ (g : ℕ × ℕ). g.1 == state_closed) (get_state-set_state now state_closed s h (omega arith))

-- A connection is closed once: directly behind a `Close` at a time below 2^55 seconds, a second one
-- changes nothing and closes nothing.
pub close-close :
    (now now' : ℕ) (s : StateConn) → now < 2 ^ 55 → close now' (close now s) ≡ close now s
close-close now now' s h = elim (Bool-cases (is_closed s)) [
  | inl closed ↦
      ap (close now') (close_closed now s closed)
      ∙ close_closed now' s closed
      ∙ sym (close_closed now s closed)
  | inr alive ↦
      ap (close now') (close_unclosed now s alive)
      ∙ close_closed now' (closed_once now s) (closed_once-is_closed now s h)
      ∙ sym (close_unclosed now s alive)
]
