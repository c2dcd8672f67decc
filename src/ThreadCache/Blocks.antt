-- ===== src/ThreadCache/Blocks.antt =====
-- How blocks and batches enter and leave the `LocalClassCache` of src/thread_cache.rs. `none` is a panic
-- or a broken contract; the assertions of the debug build are not modelled.
use orthotope.Prelude.{
  ℕ, ◌+◌, ◌-◌, Bool, not, Option, none, some, List, ◌==◌, if◌then◌else◌, length, get_elem?,
}
use orthotope.Prelude.Panics.{◌>>=◌}
use orthotope.Prelude.Search.{partition_point}
use orthotope.SizeClass.{SizeClass}
use orthotope.Header.Memory.{Memory}
use orthotope.FreeList.{FreeList, Batch, empty_batch, pop_batch_unchecked}
use orthotope.FreeList
use orthotope.ThreadCache.LocalSlab.{
  LocalSlab, BlockReuse, hot_reuse_requested_only, needs_owner_and_requested_size_refresh, reset,
  has_available_blocks, contains,
}
use orthotope.ThreadCache.LocalSlab
use orthotope.ThreadCache.ClassCache.{
  LocalClassCache, with_slab, start_of, mark_slab_available, mark_slab_unavailable,
}

-- `if !slab.has_available_blocks() { self.mark_slab_unavailable(slab_id) }`
unfoldable pub retire_if_empty : LocalClassCache → ℕ → LocalSlab → Option LocalClassCache
unfolding mark_slab_unavailable
retire_if_empty c id s = if has_available_blocks s then some c else mark_slab_unavailable c id

-- `Vec::last`
abbrev pub last_of : List ℕ → Option ℕ
last_of ids = get_elem? ids (length ids - 1)

-- The three sources of a block, in their order.
unfoldable pub pop_block_unchecked :
    Memory → LocalClassCache → Option (ℕ × BlockReuse × LocalClassCache)
unfolding retire_if_empty
pop_block_unchecked m c = elim c.hot_block [
  | some block ↦
      some (
        block,
        hot_reuse_requested_only,
        record c { hot_block = none; total_len = c.total_len - 1 },
      )
  | none ↦ elim (last_of c.available_slabs) [
    | some id ↦ do
      s ← get_elem? c.slabs id
      (block, reuse, s') ← LocalSlab.pop_block_unchecked m s
      c' ←
          retire_if_empty
            (record (with_slab c id s') { recent_slab = some id; total_len = c.total_len - 1 }) id
            s'
      some (block, reuse, c')
    | none ↦ do
      (block, left) ← FreeList.pop_block_unchecked m c.shared
      some (
        block,
        needs_owner_and_requested_size_refresh,
        record c { shared = left; shared_len = c.shared_len - 1; total_len = c.total_len - 1 },
      )
  ]
]

unfoldable pub find_slab : (debug : Bool) → LocalClassCache → ℕ → Option (Option ℕ)
find_slab debug c block = do
  index ← partition_point (start_of c.slabs) block c.slabs_by_start
  if index == 0 then some none else do
    id ← get_elem? c.slabs_by_start (index - 1)
    s ← get_elem? c.slabs id
    some (if contains debug s block then some id else none)

-- The recent slab, if it has the block
unfoldable pub recent_with : (debug : Bool) → LocalClassCache → ℕ → Option (Option ℕ)
recent_with debug c block = elim c.recent_slab [
  | none ↦ some none
  | some id ↦ do s ← get_elem? c.slabs id; some (if contains debug s block then some id else none)
]

-- The slab takes the block back, and is available again if it was not.
unfoldable pub push_to_slab : Memory → LocalClassCache → ℕ → ℕ → Option (LocalClassCache × Memory)
unfolding mark_slab_available
push_to_slab m c id block = do
  s ← get_elem? c.slabs id
  let (s', m') = LocalSlab.push_block m s block
  let pushed = with_slab c id s'
  c' ← if has_available_blocks s then some pushed else mark_slab_available pushed id
  some (c', m')

-- A block of no slab of this thread
unfoldable pub push_shared : Memory → LocalClassCache → ℕ → LocalClassCache × Memory
push_shared m c block =
    let (pushed, m') = FreeList.push_block m c.shared block in
    (record c { shared = pushed; shared_len = c.shared_len + 1 }, m')

unfoldable pub push_spilled_block :
    (debug : Bool) → Memory → LocalClassCache → ℕ → Option (LocalClassCache × Memory)
unfolding find_slab recent_with push_to_slab push_shared
push_spilled_block debug m c block = do
  recent ← recent_with debug c block
  elim recent [
    | some id ↦ push_to_slab m c id block
    | none ↦ do
      found ← find_slab debug c block
      elim found [
        | some id ↦ push_to_slab m (record c { recent_slab = some id }) id block
        | none ↦ some (push_shared m c block)
      ]
  ]

-- The block takes the hot slot, and the one that was there is spilled.
unfoldable pub push_block :
    (debug : Bool) → Memory → LocalClassCache → ℕ → Option (LocalClassCache × Memory)
unfolding push_spilled_block
push_block debug m c block =
    let hot = record c { hot_block = some block; total_len = c.total_len + 1 } in
    elim c.hot_block [
      | none ↦ some (hot, m)
      | some previous_hot ↦ push_spilled_block debug m hot previous_hot
    ]

unfoldable pub push_shared_batch :
    Memory → LocalClassCache → Batch → Option (LocalClassCache × Memory)
push_shared_batch m c batch = do
  (pushed, m') ← FreeList.push_batch m c.shared batch
  some (
    record c {
      shared = pushed;
      shared_len = c.shared_len + batch.len;
      total_len = c.total_len + batch.len;
    },
    m',
  )

-- The hot block as a batch of its own
unfoldable pub pop_hot_batch :
    Memory → LocalClassCache → ℕ → Option (Batch × LocalClassCache × Memory)
pop_hot_batch m c block = do
  let (list, m') = FreeList.push_block m FreeList.new block
  (batch, rest, m'') ← pop_batch_unchecked m' list 1
  some (batch, record c { hot_block = none; total_len = c.total_len - 1 }, m'')

-- The three sources of a batch, in their order, which is not that of single blocks.
unfoldable pub pop_batch :
    Memory → LocalClassCache → (max : ℕ) → SizeClass → Option (Batch × LocalClassCache × Memory)
unfolding retire_if_empty pop_hot_batch
pop_batch m c max class =
    if not (c.shared_len == 0)
    then (pop_batch_unchecked m c.shared max >>= λ (batch, left, m'). some (
      batch,
      record c {
        shared = left;
        shared_len = c.shared_len - batch.len;
        total_len = c.total_len - batch.len;
      },
      m',
    ))
    else elim (last_of c.available_slabs) [
      | some id ↦ do
        s ← get_elem? c.slabs id
        (batch, s', m') ← LocalSlab.pop_batch m s max class
        c' ←
            retire_if_empty (record (with_slab c id s') { total_len = c.total_len - batch.len }) id
              s'
        some (batch, c', m')
      | none ↦ elim c.hot_block [
        | some block ↦ pop_hot_batch m c block
        | none ↦ some (empty_batch, c, m)
      ]
    ]
