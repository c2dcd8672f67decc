-- ===== src/Allocator.antt =====
-- src/allocator.rs: the allocator, composed of the arena, the central pool and the large objects, and the
-- operations that work on it through a thread's cache. `World` is what one call reads and writes; calls
-- of different threads are modelled as following one another. `none` is a panic or a broken contract.
-- The advice call leaves the headers of the pages that it is given as they are.
pub mod Small
pub mod Large
pub mod Free
pub mod Refused
pub mod SizeChecks
pub mod LargeBlocks
pub mod LargeCycle
pub mod LargeFree
pub mod LargeRefused
pub mod Binding
pub mod Routing
pub mod DoubleFree
pub mod Prepare
pub mod SmallHeader
pub mod Tests
use orthotope.Prelude.{
  ℕ, ◌+◌, ◌-◌, ◌*◌, ◌%◌, Bool, Option, none, some, List, ltb, ◌==◌, if◌then◌else◌, Result, ok, err,
  ◌>>=◌, ◌>>◌,
}
use orthotope.Prelude.Word.{usize_limit, checked_add}
use orthotope.Header.{header_alignment}
use orthotope.Header.Memory.{Memory}
use orthotope.SizeClass.{all}
use orthotope.Config.{AllocatorConfig}
use orthotope.Errors.{InitError, invalid_config}
use orthotope.Stats.{AllocatorStats}
use orthotope.Arena.{Arena, remaining}
use orthotope.Arena
use orthotope.CentralPool.{CentralPool, block_counts}
use orthotope.CentralPool
use orthotope.LargeObject.{LargeObjectState}
use orthotope.LargeObject
use orthotope.ThreadCache.{ThreadCache}
use orthotope.ThreadCache.Drains.{class_stats}

pub record Allocator : Type 0 where
  pub id : ℕ
  pub config : AllocatorConfig
  pub arena : Arena
  pub central : CentralPool
  pub large : LargeObjectState

pub record World : Type 0 where
  pub memory : Memory
  pub allocator : Allocator
  pub cache : ThreadCache

unfoldable pub validate_allocator_config : AllocatorConfig → Result InitError (Unit {0})
validate_allocator_config cfg =
    if ltb cfg.alignment header_alignment
    then err (invalid_config "allocator alignment must be at least 64 bytes")
    else ok tt

-- `next_allocator_id` is the static counter; its next value comes back too.
unfoldable pub new :
    (next_allocator_id : ℕ) → (ℕ → Result ℕ ℕ) → AllocatorConfig → Result InitError (Allocator × ℕ)
unfolding validate_allocator_config
new next_allocator_id map_anon cfg = do
  validate_allocator_config cfg
  arena ← Arena.new map_anon cfg
  ok (
    record {
      id = next_allocator_id;
      config = cfg;
      arena = arena;
      central = CentralPool.new;
      large = LargeObject.new;
    },
    (next_allocator_id + 1) % usize_limit,
  )

unfoldable pub align_up_checked : ℕ → ℕ → Option ℕ
align_up_checked value alignment =
    let remainder = value % alignment in
    if remainder == 0 then some value else checked_add value (alignment - remainder)

unfoldable pub stats : Allocator → AllocatorStats
stats a =
    let large = LargeObject.stats a.large in
    record {
      arena_capacity = a.arena.len;
      arena_remaining = remaining a.arena;
      small_central =
          class_stats a.config all (block_counts (a.central).lists (a.central).remote_inboxes);
      large_live_allocations = large.live_allocations;
      large_live_bytes = large.live_bytes;
      large_free_blocks = large.free_blocks;
      large_free_bytes = large.free_bytes;
    }

-- `self.arena = a`, `self.central = c`, `self.large = l`, and the memory and the cache after a call
abbrev pub with_arena : World → Arena → World
with_arena w a = record w { allocator = record (w.allocator) { arena = a } }

abbrev pub with_central : World → CentralPool → World
with_central w c = record w { allocator = record (w.allocator) { central = c } }

abbrev pub with_large : World → LargeObjectState → World
with_large w l = record w { allocator = record (w.allocator) { large = l } }
