-- ===== src/Arena.antt =====
-- src/arena.rs: the pre-mapped arena, whose cursor only moves forward, and the page arithmetic for
-- lazy reclaim. Offsets and addresses are numbers. The anonymous mapping (memmap2), the page size
-- query (`sysconf`) and the advice call (`madvise`) are not part of the repository: they are
-- arguments of the functions that use them.
pub mod Setup
pub mod Reserve
pub mod Blocks
pub mod Contains
pub mod Concurrent
pub mod Pages
pub mod Tests
use Prim.Native.String.{String}
use orthotope.Prelude.{
  ℕ, ◌+◌, ◌-◌, ◌*◌, ◌/◌, ◌%◌, min, Bool, true, false, not, ◌&&◌, ◌||◌, Option, none, some, ltb, leb,
  ◌==◌, if◌then◌else◌, Result, ok, err, ◌>>=◌, ◌>>◌, ok_or, map_err,
}
use orthotope.Prelude.Word.{checked_add, checked_mul, wrapping_add, is_power_of_two, is_multiple_of}
use orthotope.Config.{AllocatorConfig}
use orthotope.Errors.{InitError, map_failed, invalid_config, AllocError, zero_size, out_of_memory}

pub record Arena : Type 0 where
  pub base : ℕ
  pub len : ℕ
  pub next : ℕ
  pub alignment : ℕ

pub record ReservedSpan : Type 0 where
  pub start : ℕ
  pub size : ℕ

-- `align_up`, `None` on overflow
unfoldable pub align_up : ℕ → ℕ → Option ℕ
align_up value alignment =
    let remainder = value % alignment in
    if remainder == 0 then some value else checked_add value (alignment - remainder)

unfoldable pub align_down : ℕ → ℕ → ℕ
align_down value alignment = value - value % alignment

unfoldable pub validate_config : AllocatorConfig → Result InitError (Unit {0})
validate_config cfg =
    if cfg.arena_size == 0
    then err (invalid_config "arena size must be greater than zero")
    else if cfg.alignment == 0
    then err (invalid_config "alignment must be greater than zero")
    else if not (is_power_of_two cfg.alignment)
    then err (invalid_config "alignment must be a power of two")
    else if ltb cfg.arena_size cfg.alignment
    then err (invalid_config "arena size must be at least the alignment")
    else ok tt

-- `map_anon` gives the address of a fresh mapping of so many bytes, or the system's error code.
unfoldable pub new : (ℕ → Result ℕ ℕ) → AllocatorConfig → Result InitError Arena
new map_anon cfg = do
  validate_config cfg
  mapping_len ←
      ok_or (checked_add cfg.arena_size (cfg.alignment - 1))
        (invalid_config "arena mapping size overflowed")
  addr ← map_err (map_anon mapping_len) map_failed
  aligned ← ok_or (align_up addr cfg.alignment) (invalid_config "arena base alignment overflowed")
  base ←
      ok_or (if aligned == 0 then none else some aligned)
        (invalid_config "arena mapping returned null")
  ok (record { base = base; len = cfg.arena_size; next = 0; alignment = cfg.alignment })

-- One round of the loop of `reserve_span` up to the exchange: the cursor was read as `current`, and
-- the span begins and ends at the offsets that this gives.
unfoldable pub plan_span : Arena → ℕ → ℕ → Result AllocError (ℕ × ℕ)
plan_span a current size = do
  let full = out_of_memory size (a.len - current)
  aligned ← ok_or (align_up current a.alignment) full
  end ← ok_or (checked_add aligned size) full
  if ltb a.len end then err full else ok (aligned, end)

-- One round of the loop of `reserve_block_span`: no span when not one block fits, else its offset,
-- its size and its end.
unfoldable pub plan_block_span : Arena → ℕ → ℕ → ℕ → Result AllocError (Option (ℕ × ℕ × ℕ))
plan_block_span a current block_size target_blocks = do
  aligned ← ok_or (align_up current a.alignment) (out_of_memory block_size (a.len - current))
  let remaining = a.len - aligned
  let reserved_blocks = min target_blocks (remaining / block_size)
  if reserved_blocks == 0 then ok none else do
    size ← ok_or (checked_mul reserved_blocks block_size) (out_of_memory block_size remaining)
    end ← ok_or (checked_add aligned size) (out_of_memory size remaining)
    if ltb a.len end then err (out_of_memory size remaining) else ok (some (aligned, size, end))

-- The span at an offset.
abbrev pub span_at : Arena → ℕ → ℕ → ReservedSpan
span_at a aligned size = record { start = wrapping_add a.base aligned; size = size }

-- `reserve_span` when no other thread moves the cursor between the load and the exchange.
unfoldable pub reserve_span : Arena → ℕ → Result AllocError (ReservedSpan × Arena)
reserve_span a size = if size == 0 then err zero_size else do
  (aligned, end) ← plan_span a a.next size
  ok (span_at a aligned size, record a { next = end })

unfoldable pub allocate_block : Arena → ℕ → Result AllocError (ℕ × Arena)
allocate_block a size = do (span, a') ← reserve_span a size; ok (span.start, a')

-- `reserve_block_span` when no other thread moves the cursor meanwhile.
unfoldable pub reserve_block_span : Arena → ℕ → ℕ → Result AllocError (Option ReservedSpan × Arena)
reserve_block_span a block_size target_blocks =
    if (block_size == 0) || (target_blocks == 0) then err zero_size else do
      planned ← plan_block_span a a.next block_size target_blocks
      elim planned [
        | none ↦ ok (none, a)
        | some (aligned, size, end) ↦ ok (some (span_at a aligned size), record a { next = end })
      ]

unfoldable pub remaining : Arena → ℕ
remaining a = a.len - a.next

unfoldable pub contains_block_start : Arena → ℕ → Bool
contains_block_start a addr =
    (leb a.base addr && ltb addr (a.base + a.len)) && is_multiple_of (addr - a.base) a.alignment

-- `detected` is the answer of the system, `cached` the static: the page size and the new static.
unfoldable pub system_page_size : Option ℕ → ℕ → ℕ × ℕ
system_page_size detected cached =
    if not (cached == 0)
    then (cached, cached)
    else elim detected [ none ↦ (4096, 4096) | some size ↦ (size, size) ]

unfoldable pub page_aligned_inner_range : ℕ → ℕ → ℕ → Option (ℕ × ℕ)
page_aligned_inner_range page_size start len =
    if len == 0 then none else elim (checked_add start len) [
      | none ↦ none
      | some end ↦ elim (align_up start page_size) [
        | none ↦ none
        | some aligned_start ↦
            let aligned_end = align_down end page_size in
            if leb aligned_end aligned_start
            then none
            else some (aligned_start, aligned_end - aligned_start)
      ]
    ]

-- `advise_impl` is the system call: whether it ran, or its error.
unfoldable pub advise_free : (ℕ → ℕ → Result ℕ Bool) → ℕ → ℕ → Result ℕ Bool
advise_free advise_impl addr len = if len == 0 then ok false else advise_impl addr len
