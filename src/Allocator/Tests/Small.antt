-- ===== src/Allocator/Tests/Small.antt =====
-- A small block of src/allocator.rs that is freed, freed again and handed out again.
use orthotope.Prelude.{
  ℕ, ◌<◌, ◌≡◌, ◌≢◌, ◌⊎◌, refl, subst, ◌==◌, if◌then◌else◌, true, false, Option, none, some, inl, ok,
  err, arith,
}
use orthotope.Prelude.Panics.{◌>>=◌}
use orthotope.Header.{
  AllocationHeader, AllocationKind, AllocationKindTag, user_ptr_from_block_start,
}
use orthotope.Header.Memory.{Memory}
use orthotope.Header.Roundtrip.{small_header}
use orthotope.Config.{AllocatorConfig}
use orthotope.Errors.{double_free, corrupt_header}
use orthotope.Arena.{Arena, remaining}
use orthotope.ThreadCache.LocalSlab.{BlockReuse, hot_reuse_requested_only}
use orthotope.ThreadCache.{
  ThreadCache, ClassCacheConfig, is_empty, class_config_table, bind_to_allocator, needs_refill,
  pop_available_unchecked,
}
use orthotope.ThreadCache.ClassCache.{LocalClassCache}
use orthotope.ThreadCache.ClassCache
use orthotope.SizeClass.{b64, from_request}
use orthotope.ThreadCache
use orthotope.Allocator.{Allocator, World, with_arena}
use orthotope.Allocator.Free.{
  bound, decode_header, deallocate_with_cache, deallocate_with_size_checked,
}
use orthotope.Allocator.Binding.{Owned}
use orthotope.Allocator.Small.{allocate_with_cache}
use orthotope.Allocator.Prepare.{Primed}
use orthotope.Allocator.SmallHeader.{HandedOut, allocate_with_cache-HandedOut}
use orthotope.Allocator.SizeChecks.{mismatch, size_checked-cases}
use orthotope.Allocator.Refused.{refused-Unchanged}
use orthotope.Allocator.Routing.{Roomy}
use orthotope.Allocator.DoubleFree.{deallocate-twice}
use orthotope.Allocator.Tests.{blank, start, after, advise}

-- The block at the start of the arena is a small one that cache 1 handed out for 10 bytes.
abbrev live : World
live = record start { memory = λ a. if a == 4_096 then small_header b64 10 1 else blank }

live-Owned : Owned live
unfolding ThreadCache.new
live-Owned = refl

live_decode : decode_header live.memory 4_160 ≡ ok (small_header b64 10 1, AllocationKind.small b64)
unfolding decode_header orthotope.Header.Memory.read_from_user_ptr orthotope.Header.validate_prefix
    orthotope.Header.from_encoded_fields orthotope.SizeClass.payload_size
    orthotope.Header.index_to_size_class orthotope.Header.size_class_to_index
live_decode = refl

abbrev freed : World
freed = after (deallocate_with_cache 4_096 advise true live 4_160)

freed_run : deallocate_with_cache 4_096 advise true live 4_160 ≡ some (ok tt, freed)
unfolding deallocate_with_cache ThreadCache.bind_to_allocator decode_header
    orthotope.Header.Memory.read_from_user_ptr orthotope.Header.validate_prefix
    orthotope.Header.from_encoded_fields orthotope.SizeClass.payload_size
    orthotope.Header.index_to_size_class orthotope.Header.size_class_to_index
    orthotope.Allocator.Free.validate_small_block_for_free orthotope.Arena.contains_block_start
    orthotope.Header.Memory.small_block_is_marked_freed
    orthotope.Header.Memory.small_free_marker_for
    orthotope.Header.small_owner_cache_id_after_kind_decode ThreadCache.new
    ThreadCache.push_and_should_drain orthotope.SizeClass.index
    orthotope.ThreadCache.Blocks.push_block ClassCache.new orthotope.Config.local_limit
    orthotope.Config.class_block_size orthotope.SizeClass.block_size_for_alignment
    orthotope.SizeClass.align_up orthotope.SizeClass.effective_block_alignment
freed_run = refl

some-injective : {A : Type 0} (x y : A) → ◌≡◌ {A = Option A} (some x) (some y) → x ≡ y
some-injective x y e = cc

abbrev roomy_limits : ClassCacheConfig
roomy_limits = record { refill_count = 2; local_limit = 3; drain_count = 1 }

live-Roomy : Roomy live.cache b64
unfolding ThreadCache.new ClassCache.new orthotope.SizeClass.index orthotope.Config.refill_count
    orthotope.Config.local_limit orthotope.Config.drain_count orthotope.Config.class_block_size
    orthotope.SizeClass.block_size_for_alignment orthotope.SizeClass.align_up
    orthotope.SizeClass.payload_size orthotope.SizeClass.effective_block_alignment
live-Roomy c limits e e' =
    subst (λ (x : LocalClassCache). x.total_len < limits.local_limit)
      (some-injective ClassCache.new c e)
      (subst (λ (x : ClassCacheConfig). 0 < x.local_limit) (some-injective roomy_limits limits e')
        (omega arith))

deallocate-twice_example :
    (deallocate_with_cache 4_096 advise true freed 4_160 ≡ some (err double_free, freed))
    × (deallocate_with_size_checked 4_096 advise true freed 4_160 10
        ≡ some (err double_free, freed))
deallocate-twice_example =
    deallocate-twice 4_096 advise live freed 4_160 10 (small_header b64 10 1) b64 live-Owned
      live_decode (λ e. live-Roomy) freed_run

-- Cache 1 hands out again the block that it freed last.
freed-Owned : Owned freed
unfolding deallocate_with_cache bind_to_allocator decode_header
    orthotope.Header.Memory.read_from_user_ptr orthotope.Header.validate_prefix
    orthotope.Header.from_encoded_fields orthotope.SizeClass.payload_size
    orthotope.Header.index_to_size_class orthotope.Header.size_class_to_index
    orthotope.Allocator.Free.validate_small_block_for_free orthotope.Arena.contains_block_start
    orthotope.Header.Memory.small_block_is_marked_freed
    orthotope.Header.Memory.small_free_marker_for
    orthotope.Header.small_owner_cache_id_after_kind_decode ThreadCache.new
    ThreadCache.push_and_should_drain orthotope.SizeClass.index
    orthotope.ThreadCache.Blocks.push_block orthotope.Config.class_block_size ClassCache.new
    orthotope.Config.local_limit orthotope.SizeClass.block_size_for_alignment
    orthotope.SizeClass.align_up orthotope.SizeClass.effective_block_alignment
freed-Owned = refl

b64_chosen : from_request 20 ≡ some b64
unfolding from_request
b64_chosen = refl

freed_ready : needs_refill freed.cache b64 ≡ some false
unfolding needs_refill deallocate_with_cache bind_to_allocator decode_header
    orthotope.Header.Memory.read_from_user_ptr orthotope.Header.validate_prefix
    orthotope.Header.from_encoded_fields orthotope.SizeClass.payload_size
    orthotope.Header.index_to_size_class orthotope.Header.size_class_to_index
    orthotope.Allocator.Free.validate_small_block_for_free orthotope.Arena.contains_block_start
    orthotope.Header.Memory.small_block_is_marked_freed
    orthotope.Header.Memory.small_free_marker_for
    orthotope.Header.small_owner_cache_id_after_kind_decode ThreadCache.new
    ThreadCache.push_and_should_drain orthotope.SizeClass.index
    orthotope.ThreadCache.Blocks.push_block orthotope.Config.class_block_size ClassCache.new
    orthotope.Config.local_limit orthotope.SizeClass.block_size_for_alignment
    orthotope.SizeClass.align_up orthotope.SizeClass.effective_block_alignment ClassCache.is_empty
freed_ready = refl

-- The cache without its hot block
abbrev popped : Option (ℕ × BlockReuse × ThreadCache) → ThreadCache
popped none = freed.cache
popped (some (block, reuse, cache)) = cache

abbrev emptied : ThreadCache
emptied = popped (pop_available_unchecked freed.memory freed.cache b64)

freed_pop :
    pop_available_unchecked freed.memory freed.cache b64
    ≡ some (4_096, hot_reuse_requested_only, emptied)
unfolding pop_available_unchecked deallocate_with_cache bind_to_allocator decode_header
    orthotope.Header.Memory.read_from_user_ptr orthotope.Header.validate_prefix
    orthotope.Header.from_encoded_fields orthotope.SizeClass.payload_size
    orthotope.Header.index_to_size_class orthotope.Header.size_class_to_index
    orthotope.Allocator.Free.validate_small_block_for_free orthotope.Arena.contains_block_start
    orthotope.Header.Memory.small_block_is_marked_freed
    orthotope.Header.Memory.small_free_marker_for
    orthotope.Header.small_owner_cache_id_after_kind_decode ThreadCache.new
    ThreadCache.push_and_should_drain orthotope.SizeClass.index
    orthotope.ThreadCache.Blocks.push_block orthotope.Config.class_block_size ClassCache.new
    orthotope.Config.local_limit orthotope.SizeClass.block_size_for_alignment
    orthotope.SizeClass.align_up orthotope.SizeClass.effective_block_alignment
    orthotope.ThreadCache.Blocks.pop_block_unchecked
freed_pop = refl

freed-Primed : Primed freed.memory (freed.cache).cache_id b64 hot_reuse_requested_only 4_096
unfolding deallocate_with_cache orthotope.Header.from_encoded_fields bind_to_allocator decode_header
    orthotope.Header.size_class_to_index orthotope.SizeClass.payload_size
    orthotope.Header.Memory.read_from_user_ptr orthotope.Header.validate_prefix
    orthotope.Header.index_to_size_class orthotope.Allocator.Free.validate_small_block_for_free
    orthotope.Arena.contains_block_start orthotope.Header.Memory.small_block_is_marked_freed
    orthotope.Header.Memory.small_free_marker_for
    orthotope.Header.small_owner_cache_id_after_kind_decode ThreadCache.new
    ThreadCache.push_and_should_drain orthotope.SizeClass.index
    orthotope.ThreadCache.Blocks.push_block ClassCache.new orthotope.Config.local_limit
    orthotope.Config.class_block_size orthotope.SizeClass.block_size_for_alignment
    orthotope.SizeClass.align_up orthotope.SizeClass.effective_block_alignment
    orthotope.Header.Memory.mark_small_block_freed
freed-Primed = (10, refl)

allocate_with_cache-HandedOut_example :
    (w : World) × (allocate_with_cache 4_096 advise true freed 20
      ≡ some (ok (user_ptr_from_block_start 4_096), w))
    × HandedOut true freed w 4_096 20 b64 emptied
allocate_with_cache-HandedOut_example =
    allocate_with_cache-HandedOut 4_096 advise true freed 20 4_096 b64 hot_reuse_requested_only
      emptied freed-Owned b64_chosen freed_ready freed_pop freed-Primed refl (omega arith)

size_checked-cases_example :
    ((◌≡◌ {A = ℕ} 11 10)
      × (deallocate_with_size_checked 4_096 advise true live 4_160 11
          ≡ deallocate_with_cache 4_096 advise true live 4_160))
    ⊎ ((◌≢◌ {A = ℕ} 11 10)
        × (deallocate_with_size_checked 4_096 advise true live 4_160 11 ≡ (
            bound live >>= λ b. some (
              err (mismatch true b 4_160 (small_header b64 10 1) (AllocationKind.small b64) 11),
              b,
            ))))
unfolding orthotope.Header.from_encoded_fields
size_checked-cases_example =
    size_checked-cases 4_096 advise true live 4_160 11 (small_header b64 10 1)
      (AllocationKind.small b64) live_decode

off_grid : deallocate_with_cache 4_096 advise true live 100 ≡ some (err corrupt_header, live)
unfolding deallocate_with_cache bind_to_allocator decode_header
off_grid = refl

refused-Unchanged_example : bound live ≡ some live
refused-Unchanged_example =
    refused-Unchanged 4_096 advise true live live 100 10 corrupt_header (inl off_grid)
