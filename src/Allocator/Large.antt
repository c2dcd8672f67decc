-- ===== src/Allocator/Large.antt =====
-- Large allocations of src/allocator.rs: `allocate_large` and `release_large`.
use orthotope.Prelude.{ℕ, Bool, Option, none, some, Result, ok, err}
use orthotope.Prelude.Panics.{◌>>=◌}
use orthotope.Prelude.Word.{checked_add, checked_sub}
use orthotope.Header.{AllocationHeader, user_ptr_from_block_start}
use orthotope.Header.Memory.{write_large_to_block}
use orthotope.SizeClass.{header_size}
use orthotope.Errors.{AllocError, out_of_memory, FreeError}
use orthotope.Arena.{remaining, allocate_block}
use orthotope.LargeObject.{
  take_reusable_block, block_start, usable_size, record_live_allocation,
  validate_and_release_live_allocation,
}
use orthotope.Allocator.{World, align_up_checked, with_arena, with_large}

-- The block size and the usable size of a request: `none` is an overflow, which is out of memory.
unfoldable pub large_layout : (alignment requested : ℕ) → Option (ℕ × ℕ)
large_layout alignment requested = do
  total ← checked_add header_size requested
  block_size ← align_up_checked total alignment
  usable ← checked_sub block_size header_size
  some (block_size, usable)

-- An arena that has no room names the request, not the block.
unfoldable pub name_request : ℕ → AllocError → AllocError
name_request requested (out_of_memory block left) = out_of_memory requested left
name_request requested e = e

-- A block, its size and its usable size: a freed one if there is one, else a fresh one.
unfoldable pub obtain_large_block :
    World → (block_size usable requested : ℕ) → Option (Result AllocError (ℕ × ℕ × ℕ) × World)
unfolding name_request
obtain_large_block w block_size usable requested = do
  (found, large) ← take_reusable_block (w.allocator).large block_size
  elim found [
    | some b ↦ do
      start ← block_start b
      some (ok (start, b.block_size, usable_size b), with_large w large)
    | none ↦ elim (allocate_block (w.allocator).arena block_size) [
      | ok (start, arena) ↦
          some (ok (start, block_size, usable), with_arena (with_large w large) arena)
      | err e ↦ some (err (name_request requested e), with_large w large)
    ]
  ]

-- The header is written and the block recorded. A header that does not encode is out of memory; the
-- block that was obtained stays taken.
unfoldable pub commit_large_block :
    (debug : Bool)
    → World
    → (requested start size usable : ℕ) → Option (Result AllocError ℕ × World)
commit_large_block debug w requested start size usable =
    elim (write_large_to_block w.memory start requested usable) [
      | none ↦ some (err (out_of_memory requested (remaining (w.allocator).arena)), w)
      | some m ↦ do
        let user = user_ptr_from_block_start start
        large ← record_live_allocation debug (w.allocator).large user start size requested usable
        some (ok user, with_large (record w { memory = m }) large)
    ]

unfoldable pub allocate_large :
    (debug : Bool) → World → (requested : ℕ) → Option (Result AllocError ℕ × World)
unfolding large_layout obtain_large_block commit_large_block
allocate_large debug w requested = elim (large_layout ((w.allocator).config).alignment requested) [
  | none ↦ some (err (out_of_memory requested (remaining (w.allocator).arena)), w)
  | some (block_size, usable) ↦ do
    (obtained, w') ← obtain_large_block w block_size usable requested
    elim obtained [
      | err e ↦ some (err e, w')
      | ok (start, size, actual_usable) ↦
          commit_large_block debug w' requested start size actual_usable
    ]
]

unfoldable pub release_large :
    World → (user : ℕ) → AllocationHeader → Result FreeError (Unit {0}) × World
release_large w user header =
    let (result, large) =
      validate_and_release_live_allocation (w.allocator).large user header.requested_size
        header.usable_size in
    (result, with_large w large)
