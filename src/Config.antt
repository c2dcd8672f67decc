-- ===== src/Config.antt =====
-- src/config.rs: the allocator's configuration and the counts that it derives for each class.
pub mod Counts
pub mod Tests
use orthotope.Prelude.{ℕ, ◌*◌, ◌/◌, ◌^◌, ltb, ◌==◌, if◌then◌else◌}
use orthotope.SizeClass.{SizeClass, block_alignment, block_size_for_alignment}

pub record AllocatorConfig : Type 0 where
  pub arena_size : ℕ
  pub alignment : ℕ
  pub refill_target_bytes : ℕ
  pub local_cache_target_bytes : ℕ

unfoldable pub class_block_size : AllocatorConfig → SizeClass → ℕ
class_block_size cfg c = block_size_for_alignment c cfg.alignment

unfoldable pub refill_count : AllocatorConfig → SizeClass → ℕ
refill_count cfg c =
    let count = cfg.refill_target_bytes / class_block_size cfg c in if count == 0 then 1 else count

unfoldable pub local_limit : AllocatorConfig → SizeClass → ℕ
local_limit cfg c =
    let limit = cfg.local_cache_target_bytes / class_block_size cfg c in
    if ltb limit 2 then 2 else limit

unfoldable pub drain_count : AllocatorConfig → SizeClass → ℕ
drain_count cfg c = let count = refill_count cfg c / 2 in if count == 0 then 1 else count

-- `AllocatorConfig::default`: `1 << 30`, `32 << 10` and `64 << 10` are products by powers of two.
abbrev pub default_config : AllocatorConfig
default_config = record {
  arena_size = 1 * 2 ^ 30;
  alignment = block_alignment;
  refill_target_bytes = 32 * 2 ^ 10;
  local_cache_target_bytes = 64 * 2 ^ 10;
}
