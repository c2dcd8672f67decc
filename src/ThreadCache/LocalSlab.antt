-- ===== src/ThreadCache/LocalSlab.antt =====
-- `LocalSlab` of src/thread_cache.rs: a slab that one thread owns, of which the first `next_fresh`
-- blocks have been handed out at least once. The assertions of the debug build are not modelled, but
-- `contains` differs between the builds. `none` is a panic or a broken contract.
use orthotope.Prelude.{
  ℕ, zero, suc, ◌+◌, ◌-◌, ◌*◌, min, Bool, true, false, not, ◌&&◌, ◌||◌, Option, none, some, ltb,
  leb, if◌then◌else◌,
}
use orthotope.Prelude.Panics.{◌>>=◌}
use orthotope.Prelude.Word.{checked_add, checked_mul, wrapping_add, is_multiple_of}
use orthotope.SizeClass.{SizeClass}
use orthotope.Header.Memory.{Memory, initialize_small_to_block_unchecked}
use orthotope.FreeList.{FreeList, Batch, is_empty, pop_batch_unchecked}
use orthotope.FreeList

-- What an allocation still has to write into the header of the block that it gets
pub data BlockReuse : Type 0 where
  hot_reuse_requested_only : BlockReuse
  needs_owner_and_requested_size_refresh : BlockReuse
  needs_header_rewrite : BlockReuse

pub record LocalSlab : Type 0 where
  pub start : ℕ
  pub end_addr : ℕ
  pub block_size : ℕ
  pub capacity : ℕ
  pub next_fresh : ℕ
  pub free : FreeList
  pub available_slot : Option ℕ

unfoldable pub new : (start block_size capacity : ℕ) → Option LocalSlab
new start block_size capacity = do
  slab_bytes ← checked_mul block_size capacity
  end ← checked_add start slab_bytes
  some (record {
    start = start;
    end_addr = end;
    block_size = block_size;
    capacity = capacity;
    next_fresh = 0;
    free = FreeList.new;
    available_slot = none;
  })

-- The arguments of `reset` are only compared, by assertions of the debug build.
unfoldable pub reset : LocalSlab → LocalSlab
reset s = record s { next_fresh = 0; free = FreeList.new; available_slot = none }

unfoldable pub has_available_blocks : LocalSlab → Bool
has_available_blocks s = ltb s.next_fresh s.capacity || not (is_empty s.free)

-- Only the debug build checks the grid.
unfoldable pub slab_addr_alignment_matches : (debug : Bool) (addr start block_size : ℕ) → Bool
slab_addr_alignment_matches true addr start block_size = is_multiple_of (addr - start) block_size
slab_addr_alignment_matches false addr start block_size = true

unfoldable pub contains : (debug : Bool) → LocalSlab → ℕ → Bool
unfolding slab_addr_alignment_matches
contains debug s addr =
    (leb s.start addr && ltb addr s.end_addr)
    && slab_addr_alignment_matches debug addr s.start s.block_size

-- A reclaimed block if there is one, else the next fresh one.
unfoldable pub pop_block_unchecked : Memory → LocalSlab → Option (ℕ × BlockReuse × LocalSlab)
pop_block_unchecked m s =
    if is_empty s.free
    then some (
      wrapping_add s.start (s.next_fresh * s.block_size),
      needs_header_rewrite,
      record s { next_fresh = s.next_fresh + 1 },
    )
    else do
      (block, left) ← FreeList.pop_block_unchecked m s.free
      some (block, hot_reuse_requested_only, record s { free = left })

unfoldable pub push_block : Memory → LocalSlab → ℕ → LocalSlab × Memory
push_block m s block =
    let (pushed, m') = FreeList.push_block m s.free block in (record s { free = pushed }, m')

-- The first loop of `pop_batch`: so many blocks move from the one list to the other.
unfoldable pub move_reclaimed :
    (rounds : ℕ) → Memory → (free list : FreeList) → Option (FreeList × FreeList × Memory)
move_reclaimed zero m free list = some (free, list, m)
move_reclaimed (suc rounds) m free list = do
  (block, left) ← FreeList.pop_block_unchecked m free
  let (pushed, m') = FreeList.push_block m list block
  move_reclaimed rounds m' left pushed

-- The second loop: so many fresh blocks get a header and go onto the list.
unfoldable pub carve_fresh :
    (rounds : ℕ) → Memory → SizeClass → (block_size block : ℕ) → FreeList → FreeList × Memory
carve_fresh zero m class block_size block list = (list, m)
carve_fresh (suc rounds) m class block_size block list =
    let (pushed, m') =
      FreeList.push_block (initialize_small_to_block_unchecked m block class) list block in
    carve_fresh rounds m' class block_size (wrapping_add block block_size) pushed

unfoldable pub pop_batch :
    Memory → LocalSlab → (max : ℕ) → SizeClass → Option (Batch × LocalSlab × Memory)
unfolding move_reclaimed carve_fresh
pop_batch m s max class = do
  let reclaimed = min s.free.len max
  (left, list, m') ← move_reclaimed reclaimed m s.free FreeList.new
  let fresh = min (max - reclaimed) (s.capacity - s.next_fresh)
  let (filled, m'') =
      carve_fresh fresh m' class s.block_size (wrapping_add s.start (s.next_fresh * s.block_size))
        list
  (batch, rest, m''') ← pop_batch_unchecked m'' filled (reclaimed + fresh)
  some (batch, record s { next_fresh = s.next_fresh + fresh; free = left }, m''')
