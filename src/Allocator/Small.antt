-- ===== src/Allocator/Small.antt =====
-- Small allocations of src/allocator.rs: `allocate_small_with_cache`, `refill_cache_from_arena` and
-- `allocate_with_cache`, which also sends large requests on. `none` is a panic or a broken contract.
use orthotope.Prelude.{ℕ, ◌/◌, Bool, Option, none, some, ◌==◌, if◌then◌else◌, Result, ok, err}
use orthotope.Prelude.Panics.{◌>>=◌}
use orthotope.Header.{user_ptr_from_block_start}
use orthotope.Header.Memory.{
  Memory, clear_small_free_metadata, refresh_small_requested_size_unchecked,
  refresh_small_requested_size_and_owner_unchecked, write_small_to_block_unchecked,
}
use orthotope.SizeClass.{SizeClass, block_size_for_alignment, from_request}
use orthotope.Config.{refill_count}
use orthotope.Errors.{AllocError, zero_size, out_of_memory}
use orthotope.Arena.{ReservedSpan, remaining, reserve_block_span}
use orthotope.CentralPool.{register_slab}
use orthotope.ThreadCache.LocalSlab.{
  BlockReuse, hot_reuse_requested_only, needs_owner_and_requested_size_refresh,
  needs_header_rewrite,
}
use orthotope.ThreadCache.{
  needs_refill, push_owned_slab, pop_available_unchecked, bind_to_allocator,
}
use orthotope.ThreadCache.Drains.{refill_from_central}
use orthotope.Allocator.{World, with_arena, with_central}
use orthotope.Allocator.Large.{name_request, allocate_large}

-- What the block's header still needs before the block is handed out
unfoldable pub prepare_header :
    BlockReuse → Memory → (block : ℕ) → SizeClass → (requested cache_id : ℕ) → Memory
prepare_header hot_reuse_requested_only m block class requested cache_id =
    refresh_small_requested_size_unchecked m block requested
prepare_header needs_owner_and_requested_size_refresh m block class requested cache_id =
    refresh_small_requested_size_and_owner_unchecked m block requested cache_id
prepare_header needs_header_rewrite m block class requested cache_id =
    write_small_to_block_unchecked m block class requested cache_id

-- The block that is popped, with its header made ready, as a user pointer
unfoldable pub hand_out :
    (debug : Bool) → World → SizeClass → (requested : ℕ) → Option (Result AllocError ℕ × World)
unfolding prepare_header
hand_out debug w class requested = do
  (block, reuse, cache) ← pop_available_unchecked w.memory w.cache class
  let cleared = clear_small_free_metadata debug w.memory block
  some (
    ok (user_ptr_from_block_start block),
    record w {
      memory = prepare_header reuse cleared block class requested (w.cache).cache_id;
      cache = cache;
    },
  )

module _ (page_size : ℕ) (advise : ℕ → ℕ → Result ℕ Bool) where
  -- The span becomes a slab of the pool, which lends it to the cache at once.
  unfoldable pub adopt_span :
      World
      → SizeClass
      → (requested block_size : ℕ) → Option ReservedSpan
      → Option (Result AllocError ℕ × World)
  adopt_span w class requested block_size none =
      some (err (out_of_memory requested (remaining (w.allocator).arena)), w)
  adopt_span w class requested block_size (some span) = do
    let carved = span.size / block_size
    central ←
        register_slab page_size advise (w.allocator).central class span.start block_size carved
    cache ← push_owned_slab w.cache class span.start block_size carved
    some (ok carved, record (with_central w central) { cache = cache })

  unfoldable pub refill_cache_from_arena :
      World → SizeClass → (requested : ℕ) → Option (Result AllocError ℕ × World)
  unfolding adopt_span
  refill_cache_from_arena w class requested =
      let cfg = (w.allocator).config in
      let block_size = block_size_for_alignment class cfg.alignment in
      elim (reserve_block_span (w.allocator).arena block_size (refill_count cfg class)) [
        | err e ↦ some (err (name_request requested e), w)
        | ok (span, arena) ↦ adopt_span (with_arena w arena) class requested block_size span
      ]

  -- A class without blocks gets them from the central pool, or else from the arena.
  unfoldable pub refill_if_needed :
      World → SizeClass → (requested : ℕ) → Option (Result AllocError (Unit {0}) × World)
  unfolding refill_cache_from_arena
  refill_if_needed w class requested = do
    needed ← needs_refill w.cache class
    if needed
        then (do
          (moved, cache, central, m) ←
              refill_from_central page_size advise w.memory w.cache class (w.allocator).central
          let refilled = record (with_central w central) { memory = m; cache = cache }
          if moved == 0
              then (do
                (carved, w') ← refill_cache_from_arena refilled class requested
                elim carved [
                  | err e ↦ some (err e, w')
                  | ok n ↦
                      if n == 0
                      then some (err (out_of_memory requested (remaining (w'.allocator).arena)), w')
                      else some (ok tt, w')
                ])
              else some (ok tt, refilled))
        else some (ok tt, w)

  unfoldable pub allocate_small_with_cache :
      (debug : Bool) → World → SizeClass → (requested : ℕ) → Option (Result AllocError ℕ × World)
  unfolding refill_if_needed hand_out
  allocate_small_with_cache debug w class requested = do
    (refilled, w') ← refill_if_needed w class requested
    elim refilled [ err e ↦ some (err e, w') | ok done ↦ hand_out debug w' class requested ]

  unfoldable pub allocate_with_cache :
      (debug : Bool) → World → (requested : ℕ) → Option (Result AllocError ℕ × World)
  unfolding allocate_small_with_cache
  allocate_with_cache debug w requested = do
    cache ← bind_to_allocator w.cache (w.allocator).id (w.allocator).config
    let bound = record w { cache = cache }
    if requested == 0 then some (err zero_size, bound) else elim (from_request requested) [
      | none ↦ allocate_large debug bound requested
      | some class ↦ allocate_small_with_cache debug bound class requested
    ]
