-- ===== src/Allocator/LargeRefused.antt =====
-- The requests that `allocate_large` of src/allocator.rs refuses after it has taken a span.
use orthotope.Prelude.{
  ℕ, ◌+◌, ◌≤◌, ◌<◌, ◌≡◌, refl, ap, ◌∙◌, inr, Bool, Option, none, some, arith, Result, ok, err,
}
use orthotope.Prelude.Word.{u32_limit}
use orthotope.Header.Roundtrip.{read-write_large}
use orthotope.Errors.{AllocError, out_of_memory}
use orthotope.Arena.{Arena, remaining, allocate_block}
use orthotope.Arena.Setup.{IsArena}
use orthotope.Arena.Reserve.{aligned_from, aligned_from-IsRoundUp, reserve_span_lem}
use orthotope.LargeObject.{take_reusable_block}
use orthotope.Allocator.{World, with_arena}
use orthotope.Allocator.Large.{
  name_request, large_layout, obtain_large_block, commit_large_block, allocate_large,
}
use orthotope.Allocator.LargeBlocks.{IsReady, large_layout-big, fresh-Got}

-- The arena after a block of that size
abbrev past : Arena → ℕ → Arena
past a block_size = record a { next = aligned_from a a.next + block_size }

allocate_block-past :
    (a : Arena) (block_size : ℕ)
    → IsArena a
    → 0 < block_size
    → aligned_from a a.next + block_size ≤ a.len
    → allocate_block a block_size ≡ ok (a.base + aligned_from a a.next, past a block_size)
unfolding allocate_block
allocate_block-past a block_size is pos fits =
    rw (allocate_block, ((reserve_span_lem is block_size pos).0 fits).0) refl

-- What becomes of the arena's answer
abbrev answered :
    World
    → (block_size usable requested : ℕ) → Result AllocError (ℕ × Arena)
    → Option (Result AllocError (ℕ × ℕ × ℕ) × World)
answered w block_size usable requested (ok (start, a)) =
    some (ok (start, block_size, usable), with_arena w a)
answered w block_size usable requested (err e) = some (err (name_request requested e), w)

obtain_fresh :
    (w : World) (block_size usable requested : ℕ)
    → IsReady w
    → 0 < block_size
    → take_reusable_block (w.allocator).large block_size ≡ some (none, (w.allocator).large)
    → aligned_from (w.allocator).arena ((w.allocator).arena).next + block_size
      ≤ ((w.allocator).arena).len
    → obtain_large_block w block_size usable requested
      ≡ some (
        ok (
          ((w.allocator).arena).base + aligned_from (w.allocator).arena ((w.allocator).arena).next,
          block_size,
          usable,
        ),
        with_arena w (past (w.allocator).arena block_size),
      )
unfolding obtain_large_block
obtain_fresh w block_size usable requested is pos none_fits fits =
    asked
    ∙ ap (answered w block_size usable requested)
        (allocate_block-past (w.allocator).arena block_size is.arena pos fits)
  where
    asked :
        obtain_large_block w block_size usable requested
        ≡ answered w block_size usable requested (allocate_block (w.allocator).arena block_size)
    asked = rw (obtain_large_block, none_fits) refl

-- From a world whose arena and large objects are well formed, a request whose usable size is 2^32 bytes or
-- more, with no free block for it and with room for its block in the arena, fails as out of memory
-- after the arena's cursor has moved past the block: at least the bytes of the block are gone from the
-- arena, while the memory, the cache, the pool and the large objects are as before.
pub allocate_large-lost :
    (debug : Bool) (w : World) (requested block_size usable : ℕ)
    → IsReady w
    → 0 < requested
    → large_layout ((w.allocator).config).alignment requested ≡ some (block_size, usable)
    → u32_limit ≤ usable
    → take_reusable_block (w.allocator).large block_size ≡ some (none, (w.allocator).large)
    → aligned_from (w.allocator).arena ((w.allocator).arena).next + block_size
      ≤ ((w.allocator).arena).len
    → (a : Arena) × (allocate_large debug w requested
        ≡ some (err (out_of_memory requested (remaining a)), with_arena w a))
      × (remaining a + block_size ≤ remaining (w.allocator).arena)
unfolding allocate_large commit_large_block remaining
allocate_large-lost debug w requested block_size usable is pos layout wide none_fits fits =
    let (big, _) =
      large_layout-big ((w.allocator).config).alignment requested block_size usable pos layout in
    let got = fresh-Got w block_size is big fits in
    let (_, refused) = read-write_large w.memory _ requested usable (got.placed).1 in
    (
      past (w.allocator).arena block_size,
      rw
          (
            allocate_large,
            layout,
            obtain_fresh w block_size usable requested is (omega arith) none_fits fits,
            commit_large_block,
            refused (inr (inr wide)),
          )
          refl,
      omega (arith, aligned_from-IsRoundUp is.arena ((w.allocator).arena).next),
    )
