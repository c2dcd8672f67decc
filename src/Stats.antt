-- ===== src/Stats.antt =====
-- src/stats.rs: the snapshots and their totals.
use orthotope.Prelude.{ℕ, Bool, List, sum_by}
use orthotope.SizeClass.{SizeClass}

pub record SizeClassStats : Type 0 where
  pub class : SizeClass
  pub blocks : ℕ
  pub bytes : ℕ

pub record AllocatorStats : Type 0 where
  pub arena_capacity : ℕ
  pub arena_remaining : ℕ
  pub small_central : List SizeClassStats
  pub large_live_allocations : ℕ
  pub large_live_bytes : ℕ
  pub large_free_blocks : ℕ
  pub large_free_bytes : ℕ

unfoldable pub total_small_central_blocks : AllocatorStats → ℕ
total_small_central_blocks s = sum_by (λ c. c.blocks) s.small_central

unfoldable pub total_small_central_bytes : AllocatorStats → ℕ
total_small_central_bytes s = sum_by (λ c. c.bytes) s.small_central

pub record ThreadCacheStats : Type 0 where
  pub is_bound : Bool
  pub local : List SizeClassStats

unfoldable pub total_local_blocks : ThreadCacheStats → ℕ
total_local_blocks s = sum_by (λ c. c.blocks) s.local

unfoldable pub total_local_bytes : ThreadCacheStats → ℕ
total_local_bytes s = sum_by (λ c. c.bytes) s.local
