-- ===== src/CentralPool/Exchange.antt =====
-- The operations of `ClassPool` of src/central_pool.rs: the lookup of a block's slab, the registration
-- of a slab, the refill and the return of a batch.
use orthotope.Prelude.{
  ℕ, zero, suc, ◌-◌, Bool, Option, none, some, List, [], ◌∷◌, ◌++◌, ◌==◌, if◌then◌else◌, length,
  get_elem?, take, drop, sum_by, Result, ok, err,
}
use orthotope.Prelude.Panics.{◌>>=◌}
use orthotope.Prelude.Search.{partition_point, binary_search}
use orthotope.Header.Memory.{Memory}
use orthotope.FreeList.{Batch, batch_pop_block_unchecked}
use orthotope.CentralPool.Slab.{
  SlabRecord, SlabState, loaned, partial, full_hot, full_cold, contains, span_len, reset,
  record_returned_block, take_partial_batch, is_sweep_candidate,
}
use orthotope.CentralPool.Slab
use orthotope.CentralPool.Pool.{
  ClassPool, CentralRefill, empty, batch, slab, with_slab, reconcile_bucket_transition,
  reconcile_bucket_state,
}
use orthotope.CentralPool.Sweep.{bump_epoch, maybe_sweep}

-- The slab's start, where an index outside the table panics
abbrev pub start_of : List SlabRecord → ℕ → Option ℕ
start_of slabs id = do s ← get_elem? slabs id; some s.start

-- The recent slab, if it has the block
unfoldable pub recent_with : ClassPool → ℕ → Option (Option ℕ)
recent_with p block = elim p.recent_slab [
  | none ↦ some none
  | some id ↦ do s ← get_elem? p.slabs id; some (if contains s block then some id else none)
]

-- The last slab that begins at or before the block
unfoldable pub find_by_start : ClassPool → ℕ → Option (ℕ × ClassPool)
find_by_start p block = do
  index ← partition_point (start_of p.slabs) block p.slabs_by_start
  id ← if index == 0 then none else get_elem? p.slabs_by_start (index - 1)
  some (id, record p { recent_slab = some id })

unfoldable pub find_slab_id_unchecked : ClassPool → ℕ → Option (ℕ × ClassPool)
unfolding recent_with find_by_start
find_slab_id_unchecked p block = do
  recent ← recent_with p block
  elim recent [ some id ↦ some (id, p) | none ↦ find_by_start p block ]

unfoldable pub register_slab :
    (page_size : ℕ)
    → (ℕ → ℕ → Result ℕ Bool)
    → ClassPool
    → (start block_size capacity : ℕ) → Option ClassPool
unfolding maybe_sweep
register_slab page_size advise p start block_size capacity = do
  p' ← bump_epoch p
  found ← binary_search (start_of p'.slabs) start p'.slabs_by_start
  registered ← elim found [
    | ok slot ↦ do
      id ← get_elem? p'.slabs_by_start slot
      old ← get_elem? p'.slabs id
      s ← reset old start block_size capacity p'.epoch
      some (record (with_slab p' id s) { recent_slab = some id })
    | err slot ↦ do
      let id = length p'.slabs
      s ← Slab.new start block_size capacity p'.epoch
      some (record p' {
        slabs = p'.slabs ++ (s ∷ []);
        slabs_by_start = take slot p'.slabs_by_start ++ (id ∷ drop slot p'.slabs_by_start);
        recent_slab = some id;
      })
  ]
  maybe_sweep page_size advise registered

unfoldable pub loan_whole_slab : ClassPool → ℕ → ℕ → Option (CentralRefill × ClassPool)
unfolding reconcile_bucket_transition
loan_whole_slab p id epoch = do
  s ← get_elem? p.slabs id
  let lent = record s { state = loaned; central_free_len = 0; last_touched_epoch = epoch }
  p' ←
      reconcile_bucket_transition (record (with_slab p id lent) { recent_slab = some id }) id
        s.state loaned
  some (slab s.start s.block_size s.capacity, p')

-- `Vec::last`
abbrev pub last_of : List ℕ → Option ℕ
last_of ids = get_elem? ids (length ids - 1)

-- The three ways to serve a refill, in their order, before the sweep.
unfoldable pub choose_refill : Memory → ClassPool → ℕ → Option (CentralRefill × ClassPool × Memory)
unfolding reconcile_bucket_state loan_whole_slab
choose_refill m p max = elim (last_of p.partial_slabs) [
  | some id ↦ do
    s ← get_elem? p.slabs id
    (taken, s', m') ← take_partial_batch m s max
    let touched = record s' { last_touched_epoch = p.epoch }
    p' ←
        reconcile_bucket_state (record (with_slab p id touched) { recent_slab = some id }) id
          partial
    some (batch taken, p', m')
  | none ↦ elim (last_of p.full_hot_slabs) [
    | some id ↦ do (refill, p') ← loan_whole_slab p id p.epoch; some (refill, p', m)
    | none ↦ elim (last_of p.full_cold_slabs) [
      | some id ↦ do (refill, p') ← loan_whole_slab p id p.epoch; some (refill, p', m)
      | none ↦ some (empty, p, m)
    ]
  ]
]

unfoldable pub take_refill :
    (page_size : ℕ)
    → (ℕ → ℕ → Result ℕ Bool)
    → Memory
    → ClassPool
    → ℕ
    → Option (CentralRefill × ClassPool × Memory)
unfolding choose_refill maybe_sweep
take_refill page_size advise m p max = if max == 0 then some (empty, p, m) else do
  bumped ← bump_epoch p
  (refill, p', m') ← choose_refill m bumped max
  swept ← maybe_sweep page_size advise p'
  some (refill, swept, m')

-- One returned block: its slab counts it and changes its bucket.
unfoldable pub return_block : Memory → ClassPool → ℕ → ℕ → Option (ClassPool × Memory)
unfolding find_slab_id_unchecked reconcile_bucket_state
return_block m p block epoch = do
  (id, found) ← find_slab_id_unchecked p block
  s ← get_elem? found.slabs id
  let (s', m') = record_returned_block m (record s { last_touched_epoch = epoch }) block
  p' ← reconcile_bucket_state (record (with_slab found id s') { recent_slab = some id }) id s.state
  some (p', m')

unfoldable pub return_blocks :
    Memory → ClassPool → Batch → (epoch blocks : ℕ) → Option (ClassPool × Memory)
unfolding return_block
return_blocks m p rest epoch zero = some (p, m)
return_blocks m p rest epoch (suc blocks) = do
  (block, rest') ← batch_pop_block_unchecked m rest
  (p', m') ← return_block m p block epoch
  return_blocks m' p' rest' epoch blocks

unfoldable pub return_batch :
    (page_size : ℕ)
    → (ℕ → ℕ → Result ℕ Bool)
    → Memory
    → ClassPool
    → Batch
    → Option (ClassPool × Memory)
unfolding return_blocks maybe_sweep
return_batch page_size advise m p returned = if returned.len == 0 then some (p, m) else do
  bumped ← bump_epoch p
  (p', m') ← return_blocks m bumped returned bumped.epoch returned.len
  swept ← maybe_sweep page_size advise p'
  some (swept, m')

unfoldable pub central_block_count : ClassPool → ℕ
central_block_count p = sum_by (λ s. s.central_free_len) p.slabs
