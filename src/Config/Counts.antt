-- ===== src/Config/Counts.antt =====
-- The counts of src/config.rs lie where the caches need them.
use orthotope.Prelude.{
  ℕ, ◌+◌, ◌*◌, ◌/◌, ◌≤◌, ◌<◌, ◌≡◌, refl, ap, ◌⊎◌, inl, inr, arith, ◌==◌, if◌then◌else◌, Bool-cases,
  ==→eq,
}
use native.Mathlib.Nat.{div-add-mod, mod-lt}
use orthotope.SizeClass.{SizeClass}
use orthotope.SizeClass.Bounds.{block_size_pos}
use orthotope.Config.{AllocatorConfig, class_block_size, refill_count, local_limit, drain_count}

pub block_pos : (cfg : AllocatorConfig) (c : SizeClass) → 0 < class_block_size cfg c
unfolding class_block_size
block_pos cfg c = omega (arith, block_size_pos c cfg.alignment)

-- `q` is the number of whole blocks of `b` bytes in `t` bytes.
count_bounds :
    (t b q : ℕ)
    → b * q ≤ t
    → t < b * q + b
    → (1 ≤ (if q == 0 then 1 else q))
      × (((if q == 0 then 1 else q) ≡ 1) ⊎ (b * (if q == 0 then 1 else q) ≤ t))
      × (t < b * (if q == 0 then 1 else q) + b)
count_bounds t b q low high = elim (Bool-cases (q == 0)) [
  | inl e ↦ rw e (omega arith, inl refl, omega (arith, ap (λ (n : ℕ). b * n) (==→eq q 0 e)))
  | inr e ↦ rw e (ground arith, inr low, high)
]

-- A refill takes at least one block; it takes no more bytes than the target unless it is that one
-- block; and one block more would exceed the target.
pub refill_count_bounds :
    (cfg : AllocatorConfig) (c : SizeClass)
    → (1 ≤ refill_count cfg c)
      × ((refill_count cfg c ≡ 1)
          ⊎ (class_block_size cfg c * refill_count cfg c ≤ cfg.refill_target_bytes))
      × (cfg.refill_target_bytes
          < class_block_size cfg c * refill_count cfg c + class_block_size cfg c)
unfolding refill_count
refill_count_bounds cfg c =
    count_bounds cfg.refill_target_bytes b (cfg.refill_target_bytes / b) low high
  where
    b : ℕ
    b = class_block_size cfg c

    low : b * (cfg.refill_target_bytes / b) ≤ cfg.refill_target_bytes
    low = omega (arith, div-add-mod cfg.refill_target_bytes b)

    high : cfg.refill_target_bytes < b * (cfg.refill_target_bytes / b) + b
    high = omega (
      arith,
      div-add-mod cfg.refill_target_bytes b,
      mod-lt cfg.refill_target_bytes (block_pos cfg c),
    )

-- A drain moves at least one block and no more than a refill, at most half of it unless it is one
-- block; and a cache may hold two blocks of every class.
pub drain_count_bounds :
    (cfg : AllocatorConfig) (c : SizeClass)
    → (1 ≤ drain_count cfg c)
      × (drain_count cfg c ≤ refill_count cfg c)
      × ((drain_count cfg c ≡ 1) ⊎ (2 * drain_count cfg c ≤ refill_count cfg c))
      × (2 ≤ local_limit cfg c)
unfolding drain_count local_limit
drain_count_bounds cfg c = ground (arith, refill_count_bounds cfg c)
