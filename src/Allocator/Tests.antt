-- ===== src/Allocator/Tests.antt =====
-- The allocator of src/allocator.rs over an arena of 64 MiB at address 4096, and a cache that belongs to it.
pub mod Small
use orthotope.Prelude.{
  ℕ, zero, suc, List, [], ◌∷◌, get_elem?, ap, ◌-◌, ◌+◌, ◌≤◌, ◌<◌, ◌≡◌, ◌≢◌, ◌⊎◌, refl, subst, ◌==◌,
  if◌then◌else◌, Bool, true, false, Option, none, some, inl, Result, ok, err, arith,
}
use orthotope.Prelude.Panics.{◌>>=◌}
use orthotope.Prelude.Rounding.{round_up_eq}
use orthotope.Header.{
  AllocationHeader, AllocationKind, AllocationKindTag, user_ptr_from_block_start,
}
use orthotope.Header.Memory.{Memory}
use orthotope.Header.Roundtrip.{small_header}
use orthotope.Config.{AllocatorConfig}
use orthotope.Errors.{double_free, corrupt_header, out_of_memory}
use orthotope.Arena.{Arena, remaining}
use orthotope.Arena.Reserve.{aligned_from}
use orthotope.CentralPool
use orthotope.LargeObject
use orthotope.LargeObject.{take_reusable_block}
use orthotope.LargeObject.Accounting.{new-IsLarge}
use orthotope.ThreadCache.LocalSlab.{BlockReuse, hot_reuse_requested_only}
use orthotope.ThreadCache.{
  ThreadCache, ClassCacheConfig, is_empty, class_config_table, bind_to_allocator, needs_refill,
  pop_available_unchecked,
}
use orthotope.ThreadCache.ClassCache.{LocalClassCache}
use orthotope.ThreadCache.ClassCache
use orthotope.SizeClass.{num_classes, b64, from_request}
use orthotope.ThreadCache
use orthotope.Allocator.{Allocator, World, with_arena}
use orthotope.Allocator.Large.{large_layout, allocate_large}
use orthotope.Allocator.Free.{
  bound, decode_header, deallocate_with_cache, deallocate_with_size_checked,
}
use orthotope.Allocator.Binding.{
  Owned, Foreign, HoldsNothing, KnowsNoSlab, fresh, repeat-get, bind_to_allocator-fresh,
}
use orthotope.ThreadCache.Rounds.{IsAccounted}
use orthotope.CentralPool.{repeat}
use orthotope.FreeList
use orthotope.ThreadCache.RemoteReturns
use orthotope.Allocator.Small.{allocate_with_cache}
use orthotope.Allocator.Prepare.{Primed}
use orthotope.Allocator.SmallHeader.{HandedOut, allocate_with_cache-HandedOut}
use orthotope.Allocator.SizeChecks.{mismatch, size_checked-cases}
use orthotope.Allocator.Refused.{refused-Unchanged}
use orthotope.Allocator.LargeRefused.{allocate_large-lost}
use orthotope.Allocator.LargeBlocks.{IsReady}
use orthotope.Allocator.LargeCycle.{Allocated, allocate_large-Allocated}
use orthotope.Allocator.Routing.{Roomy}
use orthotope.Allocator.DoubleFree.{deallocate-twice}
use orthotope.Allocator.LargeFree.{Returned, deallocate-allocate_large}

abbrev pub config : AllocatorConfig
config = record {
  arena_size = 0x400_0000;
  alignment = 64;
  refill_target_bytes = 256;
  local_cache_target_bytes = 384;
}

abbrev pub blank : AllocationHeader
blank = record {
  magic = 0;
  kind = AllocationKindTag.small;
  class_index = 0;
  reserved = 0;
  requested_size = 0;
  usable_size = 0;
  owner_cache_id = 0;
  free_metadata_alignment_padding = 0;
  free_list_link = 0;
  small_free_marker = 0;
  tail_padding = 0;
}

abbrev arena : Arena
arena = record { base = 4_096; len = 0x400_0000; next = 0; alignment = 64 }

abbrev pub start : World
start = record {
  memory = λ a. blank;
  allocator = record {
    id = 7;
    config = config;
    arena = arena;
    central = CentralPool.new;
    large = LargeObject.new;
  };
  cache = record ((ThreadCache.new 1 config).0) { owner = some 7 };
}

-- The world after a call, which is `start` when the call gives none
abbrev pub after : {E A : Type 0} → Option (Result E A × World) → World
after none = start
after (some (r, w)) = w

-- No page is given back.
abbrev pub advise : ℕ → ℕ → Result ℕ Bool
advise addr len = ok false

pub start-IsReady : IsReady start
unfolding LargeObject.new
start-IsReady = record {
  large = new-IsLarge;
  pool = refl;
  arena = record {
    alignment_pos = omega arith;
    base_pos = omega arith;
    base_aligned = refl;
    space = omega arith;
    cursor = omega arith;
  };
  grid = refl;
}

pub start-Owned : Owned start
unfolding ThreadCache.new
start-Owned = refl

abbrev held : World
held = after (allocate_large true start 17_000_000)

held_run : allocate_large true start 17_000_000 ≡ some (ok 4_160, held)
unfolding allocate_large orthotope.Allocator.align_up_checked LargeObject.take_reusable_block
    LargeObject.new orthotope.Arena.allocate_block orthotope.Arena.reserve_span
    orthotope.Arena.plan_span orthotope.Arena.align_up orthotope.Header.Memory.write_large_to_block
    orthotope.Header.encode_large_fields LargeObject.record_live_allocation
    orthotope.Header.user_ptr_from_block_start
held_run = refl

deallocate-allocate_large_example :
    (w : World) × (deallocate_with_cache 4_096 advise true held 4_160 ≡ some (ok tt, w))
    × (deallocate_with_size_checked 4_096 advise true held 4_160 17_000_000 ≡ some (ok tt, w))
    × Returned 4_160 held w
deallocate-allocate_large_example =
    deallocate-allocate_large 4_096 advise true start held 17_000_000 4_160 start-IsReady
      start-Owned (omega arith) held_run

allocate_large-Allocated_example : Allocated start held 4_160 17_000_000
allocate_large-Allocated_example =
    allocate_large-Allocated true start held 17_000_000 4_160 start-IsReady (omega arith) held_run

-- An arena of 12 GiB
abbrev wide : World
wide = with_arena start (record arena { len = 0x3_0000_0000 })

wide-IsReady : IsReady wide
unfolding LargeObject.new
wide-IsReady = record {
  large = new-IsLarge;
  pool = refl;
  arena = record {
    alignment_pos = omega arith;
    base_pos = omega arith;
    base_aligned = refl;
    space = omega arith;
    cursor = omega arith;
  };
  grid = refl;
}

wide_layout : large_layout 64 0x1_0000_0000 ≡ some (0x1_0000_0040, 0x1_0000_0000)
unfolding large_layout orthotope.Allocator.align_up_checked
wide_layout = refl

wide_empty :
    take_reusable_block (wide.allocator).large 0x1_0000_0040 ≡ some (none, (wide.allocator).large)
unfolding take_reusable_block LargeObject.new
wide_empty = refl

wide_fits :
    aligned_from (wide.allocator).arena ((wide.allocator).arena).next + 0x1_0000_0040
    ≤ ((wide.allocator).arena).len
wide_fits = omega (arith, round_up_eq 0 64)

allocate_large-lost_example :
    (a : Arena) × (allocate_large true wide 0x1_0000_0000
      ≡ some (err (out_of_memory 0x1_0000_0000 (remaining a)), with_arena wide a))
    × (remaining a + 0x1_0000_0040 ≤ remaining (wide.allocator).arena)
allocate_large-lost_example =
    allocate_large-lost true wide 0x1_0000_0000 0x1_0000_0040 0x1_0000_0000 wide-IsReady
      (omega arith) wide_layout (omega arith) wide_empty wide_fits

-- A class that gave all its blocks back, but still has the slab that it took for its last allocator
abbrev worn_class : LocalClassCache
worn_class = record ClassCache.new {
  slabs =
      record {
        start = 4_096;
        end_addr = 4_480;
        block_size = 128;
        capacity = 3;
        next_fresh = 3;
        free = FreeList.new;
        available_slot = none;
      }
      ∷ [];
  slabs_by_start = 0 ∷ [];
  recent_slab = some 0;
}

-- A cache of allocator 7 with that class
abbrev worn : ThreadCache
worn = record ((ThreadCache.new 2 config).0) {
  owner = some 7;
  classes = worn_class ∷ repeat (num_classes - 1) ClassCache.new;
}

worn-own :
    (k : ℕ) (c : LocalClassCache)
    → get_elem? (worn_class ∷ repeat (num_classes - 1) ClassCache.new) k ≡ some c
    → c.total_len ≡ 0
unfolding ClassCache.new
worn-own zero c e = ground arith
worn-own (suc k) c e =
    ap (λ (x : LocalClassCache). x.total_len) (repeat-get (num_classes - 1) k ClassCache.new c e)

worn-HoldsNothing : HoldsNothing worn
unfolding ThreadCache.new RemoteReturns.new
worn-HoldsNothing = (
  worn-own,
  λ k r e.
      ap (λ (x : RemoteReturns.RemoteReturnCache). x.pending_len)
        (repeat-get num_classes k RemoteReturns.new r e),
)

worn-Foreign : Foreign worn 9
worn-Foreign = λ e. let same : ◌≡◌ {A = ℕ} 7 9 = cc in absurd (omega arith)

bind_to_allocator-fresh_example :
    (t : ThreadCache) × (bind_to_allocator worn 9 config ≡ some t)
    × (t ≡ fresh 2 9 config)
    × KnowsNoSlab t
    × ((k : ℕ) (c : LocalClassCache) → get_elem? t.classes k ≡ some c → IsAccounted c)
    × ((other : AllocatorConfig) → bind_to_allocator t 9 other ≡ some t)
unfolding ThreadCache.new
bind_to_allocator-fresh_example =
    bind_to_allocator-fresh worn 9 config worn-Foreign worn-HoldsNothing
