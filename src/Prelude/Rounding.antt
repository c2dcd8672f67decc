-- ===== src/Prelude/Rounding.antt =====
-- Rounding up and down to a multiple, as arena.rs, allocator.rs, global_alloc.rs and size_class.rs
-- each do it.
use Prim.Native.Nat.{ℕ, ◌+◌, ◌-◌, ◌*◌, ◌/◌, ◌%◌, ◌≤◌, ◌<◌}
use mathlib.Core.Path.{◌≡◌, refl, sym, ◌∙◌, ap}
use native.Mathlib.Nat.{
  mod-add-mod, mod-lt, mod_self, div-add-mod, mul-mod_right, mul-sub, zero-add,
}
use mathlib.Core.Logic.{◌≢◌, inl, inr}
use orthotope.Prelude.Tests.{◌==◌, if◌then◌else◌, Bool-cases, ==→eq}
use native.Mathlib.Decide.{dec_lt, dec_le}
use native.Mathlib.Omega.{arith}

-- `r` is `v` rounded up to a multiple of `a`.
abbrev pub IsRoundUp : ℕ → ℕ → ℕ → Type 0
IsRoundUp a v r = (r % a ≡ 0) × (v ≤ r) × (r < v + a)

-- `r` is `v` rounded down to a multiple of `a`.
abbrev pub IsRoundDown : ℕ → ℕ → ℕ → Type 0
IsRoundDown a v r = (r % a ≡ 0) × (r ≤ v) × (v < r + a)

pub mod-round_up : (v a : ℕ) → 0 < a → (v + (a - v % a)) % a ≡ 0
mod-round_up v a h =
    sym (mod-add-mod v a (a - v % a)) ∙ ap (λ t. t % a) (rest (mod-lt v h)) ∙ mod_self a
  where
    rest : v % a < a → v % a + (a - v % a) ≡ a
    rest p = omega arith

pub IsRoundUp-aligned : (v a : ℕ) → 0 < a → v % a ≡ 0 → IsRoundUp a v v
IsRoundUp-aligned v a h e = (e, omega arith, omega arith)

pub IsRoundUp-moved : (v a : ℕ) → 0 < a → v % a ≢ 0 → IsRoundUp a v (v + (a - v % a))
IsRoundUp-moved v a h e = (mod-round_up v a h, omega arith, omega arith)

pub round_down : (v a : ℕ) → 0 < a → IsRoundDown a v (v - v % a)
round_down v a h = (multiple, omega arith, omega (arith, mod-lt v h))
  where
    multiple : (v - v % a) % a ≡ 0
    multiple =
        ap (λ t. t % a) {x = v - v % a} {y = a * (v / a)} (omega (arith, div-add-mod v a))
        ∙ mul-mod_right a (v / a)

-- The quotients of two multiples are ordered as they are.
lt_of_mul-lt : (a p q : ℕ) → a * p < a * q → a * p + a ≤ a * q
lt_of_mul-lt a p q h = elim (dec_lt p q) [ yes l ↦ more p q l | no l ↦ absurd (less p q l h) ]
  where
    more : (p q : ℕ) → p < q → a * p + a ≤ a * q
    more p q l = grind arith

    less : (p q : ℕ) → ¬ (p < q) → a * p < a * q → ⊥
    less p q l h = grind arith

-- No multiple lies between a value and its rounding.
pub round_up_least : (a v r w : ℕ) → 0 < a → IsRoundUp a v r → w % a ≡ 0 → v ≤ w → r ≤ w
round_up_least a v r w h up e le = elim (dec_le r w) [
  | yes l ↦ l
  | no l ↦ absurd (omega (arith, div-add-mod r a, div-add-mod w a, lt_of_mul-lt a (w / a) (r / a)))
]

pub add-mod_zero : (a x y : ℕ) → x % a ≡ 0 → y % a ≡ 0 → (x + y) % a ≡ 0
add-mod_zero a x y h k =
    sym (mod-add-mod x a y) ∙ ap (λ t. (t + y) % a) h ∙ ap (λ t. t % a) (zero-add y) ∙ k

-- A value rounded up, as a function.
pub round_up : ℕ → ℕ → ℕ
round_up v a = if v % a == 0 then v else v + (a - v % a)

pub round_up_eq : (v a : ℕ) → round_up v a ≡ (if v % a == 0 then v else v + (a - v % a))
unfolding round_up
round_up_eq v a = refl

pub round_up-IsRoundUp : (v a : ℕ) → 0 < a → IsRoundUp a v (round_up v a)
unfolding round_up
round_up-IsRoundUp v a h = elim (Bool-cases (v % a == 0)) [
  | inl e ↦ rw e (IsRoundUp-aligned v a h (==→eq _ _ e))
  | inr e ↦ rw e (IsRoundUp-moved v a h (λ z. ground arith))
]

-- Whatever is a value's rounding is the function's result.
pub round_up_unique : (v a r : ℕ) → 0 < a → IsRoundUp a v r → r ≡ round_up v a
round_up_unique v a r h up =
    let own = round_up-IsRoundUp v a h in
    omega (
      arith,
      round_up_least a v r (round_up v a) h up own.0 own.1,
      round_up_least a v (round_up v a) r h own up.0 up.1,
    )

-- No multiple lies between a value rounded down and the value.
pub round_down_greatest : (a v r w : ℕ) → 0 < a → IsRoundDown a v r → w % a ≡ 0 → w ≤ v → w ≤ r
round_down_greatest a v r w h down e le = elim (dec_le w r) [
  | yes l ↦ l
  | no l ↦ absurd (omega (arith, div-add-mod r a, div-add-mod w a, lt_of_mul-lt a (r / a) (w / a)))
]

pub sub-mod_zero : (a x y : ℕ) → 0 < a → x % a ≡ 0 → y % a ≡ 0 → (x - y) % a ≡ 0
sub-mod_zero a x y h ex ey =
    ap (λ t. t % a) {x = x - y} {y = a * (x / a - y / a)}
      (omega (arith, div-add-mod x a, div-add-mod y a, mul-sub a (x / a) (y / a)))
    ∙ mul-mod_right a (x / a - y / a)
