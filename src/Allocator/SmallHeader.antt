-- ===== src/Allocator/SmallHeader.antt =====
-- The small blocks that src/allocator.rs hands out.
use orthotope.Prelude.{
  ℕ, ◌+◌, ◌-◌, ◌%◌, ◌<◌, ◌≡◌, refl, sym, ◌∙◌, ◌≢◌, Bool, true, false, some, eq→==, ne→==, le→ltb,
  arith, Result, ok,
}
use orthotope.Prelude.Word.{usize_limit}
use orthotope.SizeClass.{SizeClass, header_size, from_request}
use orthotope.Header.{AllocationKind, user_ptr_from_block_start, header_alignment}
use orthotope.Header.Memory.{
  Memory, read_from_user_ptr, clear_small_free_metadata, refresh_small_requested_size_unchecked,
  refresh_small_requested_size_and_owner_unchecked, write_small_to_block_unchecked,
  small_block_is_marked_freed, small_free_marker_for,
}
use orthotope.Header.Marker.{clear_frame, marker-ne-zero}
use orthotope.Header.Roundtrip.{small_header, block_start-user_ptr}
use orthotope.SizeClass.Request.{from_request_least}
use orthotope.ThreadCache.LocalSlab.{
  BlockReuse, hot_reuse_requested_only, needs_owner_and_requested_size_refresh,
  needs_header_rewrite,
}
use orthotope.ThreadCache.{ThreadCache, pop_available_unchecked, needs_refill}
use orthotope.Allocator.{World}
use orthotope.Allocator.Binding.{Owned, bind-Owned}
use orthotope.Allocator.Free.{decode_header}
use orthotope.Allocator.Small.{
  prepare_header, hand_out, refill_if_needed, allocate_small_with_cache, allocate_with_cache,
}
use orthotope.Allocator.Prepare.{Primed, prepare-read}

prepare-marker :
    (reuse : BlockReuse) (m : Memory) (block : ℕ) (class : SizeClass) (requested cache_id : ℕ)
    → (prepare_header reuse
        (clear_small_free_metadata true m block)
        block
        class
        requested
        cache_id
        block).small_free_marker
      ≡ 0
unfolding prepare_header clear_small_free_metadata refresh_small_requested_size_unchecked
    refresh_small_requested_size_and_owner_unchecked write_small_to_block_unchecked
prepare-marker needs_header_rewrite m block class requested cache_id = ground arith
prepare-marker needs_owner_and_requested_size_refresh m block class requested cache_id =
    ground arith
prepare-marker hot_reuse_requested_only m block class requested cache_id = ground arith

prepare-unmarked :
    (debug : Bool) (reuse : BlockReuse) (m : Memory) (block : ℕ) (class : SizeClass)
    (requested cache_id : ℕ)
    → block < usize_limit
    → block % header_alignment ≡ 0
    → small_block_is_marked_freed debug
        (prepare_header reuse
          (clear_small_free_metadata debug m block)
          block
          class
          requested
          cache_id)
        block
      ≡ false
unfolding small_block_is_marked_freed
prepare-unmarked false reuse m block class requested cache_id small grid = refl
prepare-unmarked true reuse m block class requested cache_id small grid =
    rw (small_block_is_marked_freed, prepare-marker reuse m block class requested cache_id)
      (ne→== 0 (small_free_marker_for block) (λ e. marker-ne-zero block small grid (sym e)))

decode_at :
    (m : Memory) (block : ℕ)
    → block % header_alignment ≡ 0
    → block + header_size < usize_limit
    → decode_header m (user_ptr_from_block_start block)
      ≡ read_from_user_ptr m (user_ptr_from_block_start block)
unfolding decode_header
decode_at m block grid h =
    let address = (block_start-user_ptr block h).1 in
    let back : user_ptr_from_block_start block - header_size ≡ block = omega (arith, address) in
    rw
      (
        decode_header,
        le→ltb (user_ptr_from_block_start block) header_size (omega (arith, address)),
        back,
        eq→== (block % header_alignment) 0 grid,
      )
      refl

Primed-cleared :
    (debug : Bool) (m : Memory) (cache_id : ℕ) (class : SizeClass) (reuse : BlockReuse) (block : ℕ)
    → Primed m cache_id class reuse block
    → Primed (clear_small_free_metadata debug m block) cache_id class reuse block
Primed-cleared debug m cache_id class needs_header_rewrite block p = tt
Primed-cleared debug m cache_id class needs_owner_and_requested_size_refresh block (n, owner, e) =
    (n, owner, (clear_frame debug m block block).0 ∙ e)
Primed-cleared debug m cache_id class hot_reuse_requested_only block (n, e) =
    (n, (clear_frame debug m block block).0 ∙ e)

-- `w'` is `w` after a block was handed out for a request by a cache that then is `cache`.
pub record HandedOut (debug : Bool) (w w' : World) (block requested : ℕ) (class : SizeClass)
    (cache : ThreadCache) : Type 0 where
  pub header :
      decode_header w'.memory (user_ptr_from_block_start block)
      ≡ ok (small_header class requested (w.cache).cache_id, AllocationKind.small class)
  pub unmarked : small_block_is_marked_freed debug w'.memory block ≡ false
  pub others : (a : ℕ) → a ≢ block → w'.memory a ≡ w.memory a
  pub allocator : w'.allocator ≡ w.allocator
  pub cache_after : w'.cache ≡ cache

module _ (page_size : ℕ) (advise : ℕ → ℕ → Result ℕ Bool) (debug : Bool) where
  -- A request of a small class by a cache that belongs to the allocator and has blocks of the class is
  -- granted with the block that the cache pops, if that is on the header grid, its header ends inside the
  -- address space and, unless it is fresh, says its class (and its owner, if this cache freed it). The
  -- header of the user pointer then decodes to the class, the request and the cache's id, the block does
  -- not read as freed, and no other header and nothing else of the allocator has changed.
  pub allocate_with_cache-HandedOut :
      (w : World) (requested block : ℕ) (class : SizeClass) (reuse : BlockReuse)
      (cache : ThreadCache)
      → Owned w
      → from_request requested ≡ some class
      → needs_refill w.cache class ≡ some false
      → pop_available_unchecked w.memory w.cache class ≡ some (block, reuse, cache)
      → Primed w.memory (w.cache).cache_id class reuse block
      → block % header_alignment ≡ 0
      → block + header_size < usize_limit
      → (w' : World) × (allocate_with_cache page_size advise debug w requested
          ≡ some (ok (user_ptr_from_block_start block), w'))
        × HandedOut debug w w' block requested class cache
  unfolding allocate_with_cache allocate_small_with_cache refill_if_needed hand_out
  allocate_with_cache-HandedOut w requested block class reuse cache own chosen ready popped primed
        grid h =
      let (pos, fits, _) = (from_request_least requested class).0 chosen in
      let m = clear_small_free_metadata debug w.memory block in
      let (readable, frame) =
        prepare-read reuse m block class requested (w.cache).cache_id
          (Primed-cleared debug w.memory (w.cache).cache_id class reuse block primed) h pos fits in
      (
        record w {
          memory = prepare_header reuse m block class requested (w.cache).cache_id;
          cache = cache;
        },
        rw
            (
              allocate_with_cache,
              bind-Owned w own,
              ne→== requested 0 (omega arith),
              chosen,
              allocate_small_with_cache,
              refill_if_needed,
              ready,
              hand_out,
              popped,
            )
            refl,
        record {
          header = decode_at _ block grid h ∙ readable;
          unmarked =
              prepare-unmarked debug reuse w.memory block class requested (w.cache).cache_id
                (omega arith) grid;
          others = λ a ne. frame a ne ∙ (clear_frame debug w.memory block a).2 ne;
          allocator = refl;
          cache_after = refl;
        },
      )
