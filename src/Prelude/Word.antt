-- ===== src/Prelude/Word.antt =====
-- Machine words: `usize` of a 64-bit target, and the rounding helper that arena.rs, allocator.rs
-- and size_class.rs each carry.
use Prim.Native.Nat.{ℕ, ◌+◌, ◌-◌, ◌*◌, ◌%◌, ◌^◌, bit_and}
use mathlib.Core.Bool.{Bool, ◌&&◌, not}
use mathlib.Core.Option.{Option, none, some}
use orthotope.Prelude.Tests.{ltb, ◌==◌, if◌then◌else◌}

-- One more than `usize::MAX`.
abbrev pub usize_limit : ℕ
usize_limit = 2 ^ 64

-- One more than `u32::MAX`.
abbrev pub u32_limit : ℕ
u32_limit = 2 ^ 32

-- `usize::checked_add`
abbrev pub checked_add : ℕ → ℕ → Option ℕ
checked_add a b = if ltb (a + b) usize_limit then some (a + b) else none

-- `usize::checked_mul`
abbrev pub checked_mul : ℕ → ℕ → Option ℕ
checked_mul a b = if ltb (a * b) usize_limit then some (a * b) else none

-- `usize::checked_sub`
abbrev pub checked_sub : ℕ → ℕ → Option ℕ
checked_sub a b = if ltb a b then none else some (a - b)

-- `u32::try_from(n).ok()`
abbrev pub u32_try_from : ℕ → Option ℕ
u32_try_from n = if ltb n u32_limit then some n else none

-- `usize::wrapping_add` and `usize::wrapping_sub`
abbrev pub wrapping_add : ℕ → ℕ → ℕ
wrapping_add a b = (a + b) % usize_limit

abbrev pub wrapping_sub : ℕ → ℕ → ℕ
wrapping_sub a b = (a + usize_limit - b) % usize_limit

-- `usize::is_power_of_two`
unfoldable pub is_power_of_two : ℕ → Bool
is_power_of_two n = not (n == 0) && (bit_and n (n - 1) == 0)

-- `usize::is_multiple_of`, which is `n == 0` at a zero divisor
abbrev pub is_multiple_of : ℕ → ℕ → Bool
is_multiple_of n d = n % d == 0
