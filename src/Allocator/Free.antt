-- ===== src/Allocator/Free.antt =====
-- Freeing of src/allocator.rs: `deallocate_with_cache`, `deallocate_with_size_checked` and the checks and
-- the routing under them, and `drain_thread_cache`. `none` is a panic or a broken contract.
use orthotope.Prelude.{ℕ, Bool, not, Option, none, some, ◌==◌, if◌then◌else◌, Result, ok, err}
use orthotope.Prelude.Panics.{◌>>=◌}
use orthotope.Prelude.Word.{checked_sub, is_multiple_of}
use orthotope.Header.{
  AllocationHeader, AllocationKind, header_alignment, block_start_from_user_ptr,
  small_owner_cache_id_after_kind_decode,
}
use orthotope.Header.Memory.{
  Memory, read_from_user_ptr, small_block_is_marked_freed, mark_small_block_freed,
}
use orthotope.SizeClass.{SizeClass, header_size}
use orthotope.Errors.{FreeError, corrupt_header, foreign_pointer, double_free, size_mismatch}
use orthotope.Arena.{contains_block_start}
use orthotope.ThreadCache.{
  bind_to_allocator, push_and_should_drain, push_remote_return, should_flush_remote_returns,
  flush_remote_returns_for_class,
}
use orthotope.ThreadCache.Drains.{drain_excess_to_central, drain_all_to_central}
use orthotope.Allocator.{Allocator, World, with_central}
use orthotope.Allocator.Large.{release_large}

unfoldable pub decode_header :
    Memory → (user : ℕ) → Result FreeError (AllocationHeader × AllocationKind)
decode_header m user = elim (checked_sub user header_size) [
  | none ↦ err corrupt_header
  | some addr ↦
      if not (is_multiple_of addr header_alignment)
      then err corrupt_header
      else read_from_user_ptr m user
]

unfoldable pub validate_expected_size :
    AllocationHeader → (expected : ℕ) → Result FreeError (Unit {0})
validate_expected_size header expected =
    if not (expected == header.requested_size)
    then err (size_mismatch expected header.requested_size)
    else ok tt

unfoldable pub validate_small_block_for_free :
    (debug : Bool) → Memory → Allocator → (user : ℕ) → Result FreeError ℕ
validate_small_block_for_free debug m a user =
    let block = block_start_from_user_ptr user in
    if not (contains_block_start a.arena block)
    then err foreign_pointer
    else if small_block_is_marked_freed debug m block
    then err double_free
    else ok block

-- The cache bound to the allocator, which every entry point does first
abbrev pub bound : World → Option World
bound w = do
  cache ← bind_to_allocator w.cache (w.allocator).id (w.allocator).config
  some (record w { cache = cache })

-- A block of another cache
unfoldable pub return_to_remote : World → SizeClass → (block : ℕ) → Option World
return_to_remote w class block = do
  (cache, m) ← push_remote_return w.memory w.cache class block
  let pushed = record w { memory = m; cache = cache }
  flushes ← should_flush_remote_returns cache class
  if flushes
      then (do
        (moved, cache', central, m') ←
            flush_remote_returns_for_class m cache class (w.allocator).central
        some (record (with_central pushed central) { memory = m'; cache = cache' }))
      else some pushed

module _ (page_size : ℕ) (advise : ℕ → ℕ → Result ℕ Bool) where
  -- A block of the cache itself
  unfoldable pub return_to_cache : (debug : Bool) → World → SizeClass → (block : ℕ) → Option World
  return_to_cache debug w class block = do
    (drains, cache, m) ← push_and_should_drain debug w.memory w.cache class block
    let pushed = record w { memory = m; cache = cache }
    if drains
        then (do
          (moved, cache', central, m') ←
              drain_excess_to_central page_size advise m cache class (w.allocator).central
          some (record (with_central pushed central) { memory = m'; cache = cache' }))
        else some pushed

  unfoldable pub route_small_freed_block :
      (debug : Bool) → World → SizeClass → (block owner_cache_id : ℕ) → Option World
  unfolding return_to_cache return_to_remote
  route_small_freed_block debug w class block owner_cache_id =
      if owner_cache_id == (w.cache).cache_id
      then return_to_cache debug w class block
      else return_to_remote w class block

  unfoldable pub finish_small_free :
      (debug : Bool) → World → SizeClass → (block : ℕ) → AllocationHeader → Option World
  unfolding route_small_freed_block
  finish_small_free debug w class block header =
      route_small_freed_block debug
        (record w { memory = mark_small_block_freed debug w.memory block }) class block
        (small_owner_cache_id_after_kind_decode header)

  unfoldable pub deallocate_decoded :
      (debug : Bool)
      → World
      → (user : ℕ) → AllocationHeader
      → AllocationKind
      → Option (Result FreeError (Unit {0}) × World)
  unfolding finish_small_free
  deallocate_decoded debug w user header (AllocationKind.small class) =
      elim (validate_small_block_for_free debug w.memory w.allocator user) [
        | err e ↦ some (err e, w)
        | ok block ↦ do w' ← finish_small_free debug w class block header; some (ok tt, w')
      ]
  deallocate_decoded debug w user header AllocationKind.large = some (release_large w user header)

  unfoldable pub deallocate_decoded_with_expected_size :
      (debug : Bool)
      → World
      → (user : ℕ) → AllocationHeader
      → AllocationKind
      → (expected : ℕ) → Option (Result FreeError (Unit {0}) × World)
  unfolding finish_small_free
  deallocate_decoded_with_expected_size debug w user header (AllocationKind.small class) expected =
      elim (validate_small_block_for_free debug w.memory w.allocator user) [
        | err e ↦ some (err e, w)
        | ok block ↦ elim (validate_expected_size header expected) [
          | err e ↦ some (err e, w)
          | ok done ↦ do w' ← finish_small_free debug w class block header; some (ok tt, w')
        ]
      ]
  deallocate_decoded_with_expected_size debug w user header AllocationKind.large expected =
      elim (validate_expected_size header expected) [
        | err e ↦ some (err e, w)
        | ok done ↦ some (release_large w user header)
      ]

  unfoldable pub deallocate_with_cache :
      (debug : Bool) → World → (user : ℕ) → Option (Result FreeError (Unit {0}) × World)
  unfolding deallocate_decoded
  deallocate_with_cache debug w user = do
    w' ← bound w
    elim (decode_header w.memory user) [
      | err e ↦ some (err e, w')
      | ok (header, kind) ↦ deallocate_decoded debug w' user header kind
    ]

  unfoldable pub deallocate_with_size_checked :
      (debug : Bool) → World → (user expected : ℕ) → Option (Result FreeError (Unit {0}) × World)
  unfolding deallocate_decoded_with_expected_size
  deallocate_with_size_checked debug w user expected = do
    w' ← bound w
    elim (decode_header w.memory user) [
      | err e ↦ some (err e, w')
      | ok (header, kind) ↦ deallocate_decoded_with_expected_size debug w' user header kind expected
    ]

  unfoldable pub drain_thread_cache : World → Option World
  drain_thread_cache w = do
    w' ← bound w
    (cache, central, m) ←
        drain_all_to_central page_size advise w'.memory w'.cache (w'.allocator).central
    some (record (with_central w' central) { memory = m; cache = cache })
