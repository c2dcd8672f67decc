-- ===== src/CentralPool/Pool.antt =====
-- `ClassPool` of src/central_pool.rs: the slabs of one class and the three buckets of those that hold
-- blocks. A slab's id is its index. `none` is a panic or a broken contract; the assertions of the debug
-- build are not modelled. The page size and the memory advice call are arguments.
use orthotope.Prelude.{
  ℕ, suc, ◌%◌, Bool, true, false, Option, none, some, List, [], ◌∷◌, ◌++◌, if◌then◌else◌, length,
  get_elem?, set_elem,
}
use orthotope.Prelude.Slots.{swap_remove}
use orthotope.Prelude.Panics.{◌>>=◌}
use orthotope.FreeList.{Batch}
use orthotope.CentralPool.Slab.{SlabRecord, SlabState, loaned, partial, full_hot, full_cold}

abbrev pub sweep_interval : ℕ
sweep_interval = 64

abbrev pub sweep_scan_budget : ℕ
sweep_scan_budget = 2

-- `batch` is the case with the blocks themselves, `slab` the one with a whole slab to be cut up.
pub data CentralRefill : Type 0 where
  empty : CentralRefill
  batch : Batch → CentralRefill
  slab : (start block_size capacity : ℕ) → CentralRefill

pub record ClassPool : Type 0 where
  pub slabs : List SlabRecord
  pub slabs_by_start : List ℕ
  pub partial_slabs : List ℕ
  pub full_hot_slabs : List ℕ
  pub full_cold_slabs : List ℕ
  pub epoch : ℕ
  pub sweep_cursor : ℕ
  pub recent_slab : Option ℕ

unfoldable pub new : ClassPool
new = record {
  slabs = [];
  slabs_by_start = [];
  partial_slabs = [];
  full_hot_slabs = [];
  full_cold_slabs = [];
  epoch = 0;
  sweep_cursor = 0;
  recent_slab = none;
}

-- The bucket of a state, and the pool with another one; a loaned slab is in none.
abbrev pub bucket : ClassPool → SlabState → List ℕ
bucket p loaned = []
bucket p partial = p.partial_slabs
bucket p full_hot = p.full_hot_slabs
bucket p full_cold = p.full_cold_slabs

abbrev pub with_bucket : ClassPool → SlabState → List ℕ → ClassPool
with_bucket p loaned ids = p
with_bucket p partial ids = record p { partial_slabs = ids }
with_bucket p full_hot ids = record p { full_hot_slabs = ids }
with_bucket p full_cold ids = record p { full_cold_slabs = ids }

abbrev pub with_slab : ClassPool → ℕ → SlabRecord → ClassPool
with_slab p id s = record p { slabs = set_elem p.slabs id s }

-- `self.slabs[id].bucket_slot = slot`
abbrev pub with_slot : ClassPool → ℕ → Option ℕ → Option ClassPool
with_slot p id slot = do
  s ← get_elem? p.slabs id
  some (with_slab p id (record s { bucket_slot = slot }))

unfoldable pub normalize_sweep_cursor : ClassPool → ClassPool
normalize_sweep_cursor p = elim p.full_hot_slabs [
  | [] ↦ record p { sweep_cursor = 0 }
  | id ∷ ids ↦ record p { sweep_cursor = p.sweep_cursor % suc (length ids) }
]

-- The slab that was moved into the gap learns its new place.
unfoldable pub relabel_moved : ClassPool → SlabState → ℕ → Option ClassPool
relabel_moved p state slot = elim (get_elem? (bucket p state) slot) [
  | none ↦ some p
  | some moved ↦ with_slot p moved (some slot)
]

abbrev pub is_loaned : SlabState → Bool
is_loaned loaned = true
is_loaned _ = false

-- What follows once the slab's own slot is cleared.
unfoldable pub leave_bucket : ClassPool → SlabState → ℕ → Option ClassPool
unfolding relabel_moved normalize_sweep_cursor
leave_bucket p state slot = if is_loaned state then some p else do
  (removed, ids) ← swap_remove (bucket p state) slot
  relabelled ← relabel_moved (with_bucket p state ids) state slot
  some (normalize_sweep_cursor relabelled)

unfoldable pub remove_from_bucket : ClassPool → ℕ → SlabState → Option ClassPool
unfolding leave_bucket
remove_from_bucket p id state = do
  s ← get_elem? p.slabs id
  elim s.bucket_slot [
    | none ↦ some p
    | some slot ↦ leave_bucket (with_slab p id (record s { bucket_slot = none })) state slot
  ]

unfoldable pub add_to_bucket : ClassPool → ℕ → SlabState → Option ClassPool
unfolding normalize_sweep_cursor
add_to_bucket p id state = if is_loaned state then with_slot p id none else do
  p' ←
      with_slot (with_bucket p state (bucket p state ++ (id ∷ []))) id
        (some (length (bucket p state)))
  some (normalize_sweep_cursor p')

abbrev pub same_state : SlabState → SlabState → Bool
same_state loaned loaned = true
same_state partial partial = true
same_state full_hot full_hot = true
same_state full_cold full_cold = true
same_state _ _ = false

unfoldable pub reconcile_bucket_transition :
    ClassPool → ℕ → SlabState → SlabState → Option ClassPool
unfolding remove_from_bucket add_to_bucket
reconcile_bucket_transition p id previous next =
    if same_state previous next
    then some p
    else do p' ← remove_from_bucket p id previous; add_to_bucket p' id next

unfoldable pub reconcile_bucket_state : ClassPool → ℕ → SlabState → Option ClassPool
unfolding reconcile_bucket_transition
reconcile_bucket_state p id previous = do
  s ← get_elem? p.slabs id
  reconcile_bucket_transition p id previous s.state
