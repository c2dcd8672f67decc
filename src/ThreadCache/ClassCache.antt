-- ===== src/ThreadCache/ClassCache.antt =====
-- `LocalClassCache` of src/thread_cache.rs: the blocks of one class that a thread holds, in a hot slot, in
-- its own slabs and in a list of blocks of other slabs; and which of its slabs have blocks available. `none` is a panic or a broken contract; the
-- assertions of the debug build are not modelled. The counters are plain numbers, which subtraction does
-- not take below 0.
use orthotope.Prelude.{
  ℕ, Bool, Option, none, some, List, [], ◌∷◌, ◌++◌, ◌==◌, length, get_elem?, set_elem, take, drop,
  ok, err,
}
use orthotope.Prelude.Panics.{◌>>=◌}
use orthotope.Prelude.Search.{binary_search}
use orthotope.Prelude.Slots.{swap_remove}
use orthotope.Prelude.Word.{checked_add}
use orthotope.FreeList.{FreeList, Batch, empty_batch, pop_batch_unchecked}
use orthotope.FreeList
use orthotope.ThreadCache.LocalSlab.{
  LocalSlab, BlockReuse, hot_reuse_requested_only, needs_owner_and_requested_size_refresh, reset,
  has_available_blocks, contains,
}
use orthotope.ThreadCache.LocalSlab

pub record LocalClassCache : Type 0 where
  pub hot_block : Option ℕ
  pub slabs : List LocalSlab
  pub slabs_by_start : List ℕ
  pub available_slabs : List ℕ
  pub recent_slab : Option ℕ
  pub shared : FreeList
  pub shared_len : ℕ
  pub total_len : ℕ

unfoldable pub new : LocalClassCache
new = record {
  hot_block = none;
  slabs = [];
  slabs_by_start = [];
  available_slabs = [];
  recent_slab = none;
  shared = FreeList.new;
  shared_len = 0;
  total_len = 0;
}

unfoldable pub is_empty : LocalClassCache → Bool
is_empty c = c.total_len == 0

abbrev pub with_slab : LocalClassCache → ℕ → LocalSlab → LocalClassCache
with_slab c id s = record c { slabs = set_elem c.slabs id s }

-- `self.slabs[id].available_slot = slot`
abbrev pub with_slot : LocalClassCache → ℕ → Option ℕ → Option LocalClassCache
with_slot c id slot = do
  s ← get_elem? c.slabs id
  some (with_slab c id (record s { available_slot = slot }))

unfoldable pub mark_slab_available : LocalClassCache → ℕ → Option LocalClassCache
mark_slab_available c id = do
  s ← get_elem? c.slabs id
  elim s.available_slot [
    | some slot ↦ some c
    | none ↦ some (
        with_slab (record c { available_slabs = c.available_slabs ++ (id ∷ []) }) id
          (record s { available_slot = some (length c.available_slabs) }))
  ]

-- The slab that was moved into the gap learns its new place.
unfoldable pub relabel_moved : LocalClassCache → ℕ → Option LocalClassCache
relabel_moved c slot = elim (get_elem? c.available_slabs slot) [
  | none ↦ some c
  | some moved ↦ with_slot c moved (some slot)
]

unfoldable pub mark_slab_unavailable : LocalClassCache → ℕ → Option LocalClassCache
unfolding relabel_moved
mark_slab_unavailable c id = do
  s ← get_elem? c.slabs id
  elim s.available_slot [
    | none ↦ some c
    | some slot ↦ do
      (removed, ids) ← swap_remove c.available_slabs slot
      relabel_moved
          (with_slab (record c { available_slabs = ids }) id (record s { available_slot = none }))
          slot
  ]

-- The slab's start, where an index outside the table panics
abbrev pub start_of : List LocalSlab → ℕ → Option ℕ
start_of slabs id = do s ← get_elem? slabs id; some s.start

-- The id of the slab at that start, which is emptied and made anew or is entered
unfoldable pub enter_slab :
    LocalClassCache → (start block_size capacity : ℕ) → Option (ℕ × LocalClassCache)
unfolding mark_slab_unavailable
enter_slab c start block_size capacity = do
  found ← binary_search (start_of c.slabs) start c.slabs_by_start
  elim found [
    | ok slot ↦ do
      id ← get_elem? c.slabs_by_start slot
      c' ← mark_slab_unavailable c id
      s ← get_elem? c'.slabs id
      some (id, with_slab c' id (reset s))
    | err slot ↦ do
      let id = length c.slabs
      s ← LocalSlab.new start block_size capacity
      some (
        id,
        record c {
          slabs = c.slabs ++ (s ∷ []);
          slabs_by_start = take slot c.slabs_by_start ++ (id ∷ drop slot c.slabs_by_start);
        },
      )
  ]

unfoldable pub push_owned_slab :
    LocalClassCache → (start block_size capacity : ℕ) → Option LocalClassCache
unfolding enter_slab mark_slab_available
push_owned_slab c start block_size capacity = do
  (id, entered) ← enter_slab c start block_size capacity
  available ← mark_slab_available entered id
  total ← checked_add available.total_len capacity
  some (record available { recent_slab = some id; total_len = total })
