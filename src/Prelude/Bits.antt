-- ===== src/Prelude/Bits.antt =====
-- Single binary digits of an exclusive or.
use Prim.Native.Nat.{ℕ, zero, suc, ◌+◌, ◌*◌, ◌/◌, ◌%◌, ◌^◌, ◌≤◌, ◌<◌, bit_xor}
use Prim.Native.Nat.{digits, differ, bit_xor-bitwise}
use mathlib.Core.Path.{◌≡◌, refl, ap, sym, ◌∙◌}
use native.Mathlib.Nat.{pow-succ', div-div-eq-div-mul}
use native.Mathlib.Omega.{arith}

-- The digit of weight `2 ^ k`.
abbrev pub bit : ℕ → ℕ → ℕ
bit zero a = a % 2
bit (suc k) a = bit k (a / 2)

xor_digits : ℕ → ℕ → ℕ → ℕ
xor_digits = digits (λ y. y) differ

-- The fuel does not matter while it is at least the number.
xor_digits_fuel : (a b m n : ℕ) → a ≤ m → a ≤ n → xor_digits m a b ≡ xor_digits n a b
unfolding xor_digits
xor_digits_fuel zero b zero zero l r = refl
xor_digits_fuel zero b zero (suc n) l r = refl
xor_digits_fuel zero b (suc m) zero l r = refl
xor_digits_fuel zero b (suc m) (suc n) l r = refl
xor_digits_fuel (suc a) b zero n l r = absurd (omega arith)
xor_digits_fuel (suc a) b (suc m) zero l r = absurd (omega arith)
xor_digits_fuel (suc a) b (suc m) (suc n) l r =
    let same = xor_digits_fuel (suc a / 2) (b / 2) m n (omega arith) (omega arith) in
    ap (λ t. t * 2 + differ (suc a % 2) (b % 2)) same

differ-parity : (x y : ℕ) → x < 2 → y < 2 → differ x y ≡ (x + y) % 2
differ-parity zero y hx hy = omega arith
differ-parity (suc zero) zero hx hy = omega arith
differ-parity (suc zero) (suc zero) hx hy = refl
differ-parity (suc zero) (suc (suc y)) hx hy = absurd (omega arith)
differ-parity (suc (suc x)) y hx hy = absurd (omega arith)

xor_step : (a b : ℕ) → bit_xor a b ≡ bit_xor (a / 2) (b / 2) * 2 + (a % 2 + b % 2) % 2
unfolding xor_digits
xor_step zero b = simp bit_xor-bitwise (omega arith)
xor_step (suc a) b = omega (
  arith,
  bit_xor-bitwise (suc a) b,
  bit_xor-bitwise (suc a / 2) (b / 2),
  xor_digits_fuel (suc a / 2) (b / 2) a (suc a / 2) (omega arith) (omega arith),
  differ-parity (suc a % 2) (b % 2) (omega arith) (omega arith),
)

pub bit-xor : (k a b : ℕ) → bit k (bit_xor a b) ≡ (bit k a + bit k b) % 2
bit-xor zero a b = omega (arith, xor_step a b)
bit-xor (suc k) a b =
    ap (bit k) {x = bit_xor a b / 2} {y = bit_xor (a / 2) (b / 2)} (omega (arith, xor_step a b))
    ∙ bit-xor k (a / 2) (b / 2)

pub bit-div : (k a : ℕ) → bit k a ≡ a / 2 ^ k % 2
bit-div zero a = omega arith
bit-div (suc k) a =
    bit-div k (a / 2)
    ∙ ap (λ t. t % 2) (div-div-eq-div-mul a 2 (2 ^ k) ∙ ap (λ t. a / t) (sym (pow-succ' 2 k)))
