-- ===== src/CentralPool/Sweep.antt =====
-- The epoch and the sweep of `ClassPool` of src/central_pool.rs: slabs that stay full turn cold when the
-- system accepts the advice that their pages are free.
use orthotope.Prelude.{
  ℕ, zero, suc, ◌+◌, ◌%◌, min, Bool, false, not, ◌||◌, Option, none, some, ◌==◌, if◌then◌else◌,
  length, get_elem?, Result, ok, err,
}
use orthotope.Prelude.Panics.{◌>>=◌}
use orthotope.Prelude.Word.{checked_add, is_multiple_of}
use orthotope.Arena.{page_aligned_inner_range, advise_free}
use orthotope.CentralPool.Slab.{SlabRecord, full_cold, span_len, is_sweep_candidate}
use orthotope.CentralPool.Pool.{
  ClassPool, sweep_interval, sweep_scan_budget, with_slab, reconcile_bucket_transition,
}

-- `epoch` is a `u64`, which has the limit of a `usize`.
unfoldable pub bump_epoch : ClassPool → Option ClassPool
bump_epoch p = do next ← checked_add p.epoch 1; some (record p { epoch = next })

-- Whether the call reported that the pages were advised: `matches!(advised, Ok(true))`.
abbrev pub is_ok_true : Result ℕ Bool → Bool
is_ok_true (ok b) = b
is_ok_true (err e) = false

-- The pages of a candidate are advised; on success it turns cold.
unfoldable pub sweep_slab :
    (ℕ → ℕ → Result ℕ Bool) → ClassPool → ℕ → SlabRecord → ℕ × ℕ → Option ClassPool
unfolding reconcile_bucket_transition
sweep_slab advise p id s (addr, len) =
    if is_ok_true (advise_free advise addr len)
    then reconcile_bucket_transition (with_slab p id (record s { state = full_cold })) id s.state
        full_cold
    else some p

-- The rounds of the loop of `maybe_sweep`: each moves the cursor; the first candidate with a whole
-- page ends the loop.
unfoldable pub sweep_rounds :
    (page_size : ℕ) → (ℕ → ℕ → Result ℕ Bool) → (total rounds : ℕ) → ClassPool → Option ClassPool
unfolding sweep_slab
sweep_rounds page_size advise total zero p = some p
sweep_rounds page_size advise total (suc rounds) p = do
  let bucket_slot = p.sweep_cursor % total
  id ← get_elem? p.full_hot_slabs bucket_slot
  s ← get_elem? p.slabs id
  let moved = record p { sweep_cursor = (bucket_slot + 1) % total }
  let others = sweep_rounds page_size advise total rounds moved
  if not (is_sweep_candidate s p.epoch)
      then others
      else elim (page_aligned_inner_range page_size s.start (span_len s)) [
        | none ↦ others
        | some range ↦ sweep_slab advise moved id s range
      ]

unfoldable pub maybe_sweep :
    (page_size : ℕ) → (ℕ → ℕ → Result ℕ Bool) → ClassPool → Option ClassPool
unfolding sweep_rounds
maybe_sweep page_size advise p =
    let total = length p.full_hot_slabs in
    if not (is_multiple_of p.epoch sweep_interval) || (total == 0)
    then some p
    else sweep_rounds page_size advise total (min sweep_scan_budget total) p
