-- ===== src/Allocator/LargeBlocks.antt =====
-- The blocks that `allocate_large` of src/allocator.rs obtains.
use native.Mathlib.Decide.{dec_le}
use native.Mathlib.Nat.{div-add-mod, add-mul-mod_self_left, mul_assoc}
use orthotope.Prelude.{
  ℕ, ◌+◌, ◌*◌, ◌/◌, ◌%◌, ◌≤◌, ◌<◌, ◌≡◌, refl, ap, ◌∙◌, ◌&&◌, some, ltb, ◌==◌, if◌then◌else◌, arith,
  sum_by, inl, inr, Bool-cases, Result, ok, err,
}
use orthotope.Prelude.Panics.{Returns}
use orthotope.Prelude.Rounding.{add-mod_zero}
use orthotope.Prelude.Word.{usize_limit}
use orthotope.Header.{header_alignment}
use orthotope.Errors.{AllocError}
use orthotope.SizeClass.{header_size}
use orthotope.Arena.{allocate_block}
use orthotope.Arena.Setup.{IsArena}
use orthotope.Arena.Reserve.{aligned_from, aligned_from-IsRoundUp, reserve_span_lem}
use orthotope.LargeObject.{LargeObjectState, FreeLargeBlock, block_start}
use orthotope.LargeObject.Buckets.{contents}
use orthotope.LargeObject.Accounting.{IsLarge, take_reusable_block-best}
use orthotope.Allocator.{World, with_arena, with_large, align_up_checked}
use orthotope.Allocator.Large.{large_layout, obtain_large_block}

-- A block start on the header grid whose header ends inside the address space
abbrev pub Placed : ℕ → Type 0
Placed start = (start % header_alignment ≡ 0) × (start + header_size < usize_limit)

-- 0 for a placed block, so that their sum over the pool is 0 exactly when every block is placed
abbrev pub misplaced : FreeLargeBlock → ℕ
misplaced b =
    if (b.block_addr % header_alignment == 0) && ltb (b.block_addr + header_size) usize_limit
    then 0
    else 1

pub misplaced-Placed : (b : FreeLargeBlock) → misplaced b ≡ 0 → Placed b.block_addr
misplaced-Placed b e = (ground arith, ground arith)

pub Placed-misplaced : (b : FreeLargeBlock) → Placed b.block_addr → misplaced b ≡ 0
Placed-misplaced b (grid, room) = ground arith

-- The arena and the large objects are well formed, and free large blocks are placed.
pub record IsReady (w : World) : Type 0 where
  pub large : IsLarge (w.allocator).large
  pub pool : sum_by misplaced (contents ((w.allocator).large).free) ≡ 0
  pub arena : IsArena (w.allocator).arena
  pub grid : ((w.allocator).arena).alignment % header_alignment ≡ 0

-- What a block comes with: it is placed, and only the arena and the large objects have changed.
pub record Got (w w' : World) (start : ℕ) : Type 0 where
  pub placed : Placed start
  pub memory : w'.memory ≡ w.memory
  pub cache : w'.cache ≡ w.cache
  pub identity : (w'.allocator).id ≡ (w.allocator).id
  pub config : (w'.allocator).config ≡ (w.allocator).config
  pub ready : IsReady w'

-- A multiple of a multiple of 64 is one.
aligned-grid : (v a : ℕ) → a % header_alignment ≡ 0 → v % a ≡ 0 → v % header_alignment ≡ 0
aligned-grid v a h e =
    ap (λ x. x % header_alignment) multiple ∙ add-mul-mod_self_left 0 64 ((a / 64) * (v / a))
  where
    whole : a ≡ 64 * (a / 64)
    whole = omega (arith, div-add-mod a 64)

    multiple : v ≡ 0 + 64 * ((a / 64) * (v / a))
    multiple =
        omega (arith, div-add-mod v a, ap (λ z. z * (v / a)) whole, mul_assoc 64 (a / 64) (v / a))

reused-Got :
    (w : World) (s : LargeObjectState) (b : FreeLargeBlock)
    → IsReady w
    → IsLarge s
    → ((f : FreeLargeBlock → ℕ)
        → f b + sum_by f (contents s.free) ≡ sum_by f (contents ((w.allocator).large).free))
    → Got w (with_large w s) b.block_addr
reused-Got w s b is holds weight = record {
  placed = misplaced-Placed b (omega (arith, weight misplaced, is.pool));
  memory = refl;
  cache = refl;
  identity = refl;
  config = refl;
  ready = record {
    large = holds;
    pool = omega (arith, weight misplaced, is.pool);
    arena = is.arena;
    grid = is.grid;
  };
}

pub fresh-Got :
    (w : World) (block_size : ℕ)
    → IsReady w
    → header_size < block_size
    → aligned_from (w.allocator).arena ((w.allocator).arena).next + block_size
      ≤ ((w.allocator).arena).len
    → Got w
        (with_arena w (record ((w.allocator).arena) {
          next = aligned_from (w.allocator).arena ((w.allocator).arena).next + block_size;
        }))
        (((w.allocator).arena).base + aligned_from (w.allocator).arena ((w.allocator).arena).next)
fresh-Got w block_size is big fits =
    let up = aligned_from-IsRoundUp is.arena ((w.allocator).arena).next in
    let begins =
      add-mod_zero ((w.allocator).arena).alignment ((w.allocator).arena).base
        (aligned_from (w.allocator).arena ((w.allocator).arena).next) (is.arena).base_aligned
        up.0 in
    record {
      placed = (
        aligned-grid _ ((w.allocator).arena).alignment is.grid begins,
        omega (arith, (is.arena).space),
      );
      memory = refl;
      cache = refl;
      identity = refl;
      config = refl;
      ready = record {
        large = is.large;
        pool = is.pool;
        arena = ((reserve_span_lem is.arena block_size (omega arith)).0 fits).1;
        grid = is.grid;
      };
    }

abbrev pub Obtained : World → Result AllocError (ℕ × ℕ × ℕ) × World → Type 0
Obtained w (ok (start, size, usable), w') = Got w w' start
Obtained w (err e, w') = Unit

pub obtain_large_block-Got :
    (w : World) (block_size usable requested : ℕ)
    → IsReady w
    → header_size < block_size
    → Returns (Obtained w) (obtain_large_block w block_size usable requested)
unfolding obtain_large_block block_start allocate_block
obtain_large_block-Got w block_size usable requested is big =
    elim (take_reusable_block-best (w.allocator).large block_size is.large) [
      | inl (none_fits, small) ↦
          let (granted, refused) = reserve_span_lem is.arena block_size (omega arith) in
          elim (dec_le (aligned_from (w.allocator).arena ((w.allocator).arena).next + block_size)
            ((w.allocator).arena).len) [
              | yes fits ↦
                  rw (Returns, obtain_large_block, none_fits, allocate_block, (granted fits).0)
                    (fresh-Got w block_size is big fits)
              | no full ↦
                  rw (Returns, obtain_large_block, none_fits, allocate_block, refused (omega arith))
                    tt
            ]
      | inr (b, s', taken, fits, best, weight, live, holds) ↦
          elim (Bool-cases (b.block_addr == 0)) [
            | inl z ↦ rw (Returns, obtain_large_block, taken, block_start, z) tt
            | inr nz ↦
                rw (Returns, obtain_large_block, taken, block_start, nz)
                  (reused-Got w s' b is holds weight)
          ]
    ]

pub large_layout-big :
    (alignment requested block_size usable : ℕ)
    → 0 < requested
    → large_layout alignment requested ≡ some (block_size, usable)
    → (header_size < block_size) × (block_size ≡ usable + header_size)
unfolding large_layout align_up_checked
large_layout-big alignment requested block_size usable pos e = (ground arith, ground arith)
