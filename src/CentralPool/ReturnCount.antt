-- ===== src/CentralPool/ReturnCount.antt =====
-- `return_batch` of src/central_pool.rs adds exactly the blocks of the batch.
use orthotope.Prelude.{
  ℕ, zero, suc, ◌+◌, ◌-◌, ◌≡◌, refl, ap, Bool, Option, none, some, ◌==◌, if◌then◌else◌, arith,
  get_elem?, Bool-cases, Option-cases, inl, inr, Result, ==→eq,
}
use orthotope.Prelude.Word.{checked_add}
use orthotope.Prelude.Panics.{Returns, Returns-self, Returns->>=, Returns-some, Returns-any}
use orthotope.Prelude.Search.{partition_point}
use orthotope.Header.Memory.{Memory}
use orthotope.FreeList.{Batch, batch_pop_block_unchecked}
use orthotope.CentralPool.Slab.{SlabRecord, record_returned_block, count_returned}
use orthotope.CentralPool.Pool.{ClassPool, with_slab}
use orthotope.CentralPool.Sweep.{bump_epoch, maybe_sweep}
use orthotope.CentralPool.Exchange.{
  start_of, recent_with, find_by_start, find_slab_id_unchecked, return_block, return_blocks,
  return_batch, central_block_count,
}
use orthotope.CentralPool.Conserve.{held, held-set_elem, SameHeld, state-held, maybe_sweep-held}

-- The pool holds `n` blocks more.
abbrev pub Grown : ℕ → ClassPool → ClassPool × Memory → Type 0
Grown n p r = held (r.0.slabs) ≡ n + held p.slabs

record_returned_block-count :
    (m : Memory) (s : SlabRecord) (block : ℕ)
    → (record_returned_block m s block).0.central_free_len ≡ s.central_free_len + 1
unfolding record_returned_block count_returned
record_returned_block-count m s block = ground arith

abbrev SameSlabs : ClassPool → ℕ × ClassPool → Type 0
SameSlabs p r = (r.1).slabs ≡ p.slabs

find_by_start-slabs : (p : ClassPool) (block : ℕ) → Returns (SameSlabs p) (find_by_start p block)
unfolding find_by_start
find_by_start-slabs p block =
    Returns->>= (λ i. Unit {0}) (SameSlabs p)
      (partition_point (start_of p.slabs) block p.slabs_by_start) _
      (Returns-any (partition_point (start_of p.slabs) block p.slabs_by_start))
      (λ i h.
        Returns->>= (λ id. Unit {0}) (SameSlabs p)
          (if i == 0 then none else get_elem? p.slabs_by_start (i - 1)) _
          (Returns-any (if i == 0 then none else get_elem? p.slabs_by_start (i - 1)))
          (λ id h'. refl))

find_slab-slabs :
    (p : ClassPool) (block : ℕ) → Returns (SameSlabs p) (find_slab_id_unchecked p block)
unfolding find_slab_id_unchecked
find_slab-slabs p block =
    Returns->>= (λ r. recent_with p block ≡ some r) (SameSlabs p) (recent_with p block) _
      (Returns-self (recent_with p block))
      (λ r e. elim (Option-cases r) [
        | inl e' ↦ rw e' (find_by_start-slabs p block)
        | inr (id, e') ↦ rw e' refl
      ])

return_block-Grown :
    (m : Memory) (p : ClassPool) (block epoch : ℕ)
    → Returns (Grown 1 p) (return_block m p block epoch)
unfolding return_block
return_block-Grown m p block epoch =
    Returns->>= (SameSlabs p) (Grown 1 p) (find_slab_id_unchecked p block) _
      (find_slab-slabs p block)
      (λ (id, found) same.
        Returns->>= (λ s. get_elem? found.slabs id ≡ some s) (Grown 1 p) (get_elem? found.slabs id)
          _ (Returns-self (get_elem? found.slabs id))
          (λ s at_id.
            Returns->>=
              (SameHeld (
                with_slab found id
                  (record_returned_block m (record s { last_touched_epoch = epoch }) block).0))
              (Grown 1 p) _ _
              (state-held
                (record (with_slab found id
                  (record_returned_block m (record s { last_touched_epoch = epoch }) block).0) {
                    recent_slab = some id;
                  })
                id s.state)
              (λ q same'. omega (
                arith,
                ap held same,
                record_returned_block-count m (record s { last_touched_epoch = epoch }) block,
                held-set_elem found.slabs id s
                    (record_returned_block m (record s { last_touched_epoch = epoch }) block).0
                    at_id,
              ))))

more-Grown :
    (n : ℕ) (p q : ClassPool) (o : Option (ClassPool × Memory))
    → held q.slabs ≡ 1 + held p.slabs
    → Returns (Grown n q) o
    → Returns (Grown (suc n) p) o
more-Grown n p q none one h = tt
more-Grown n p q (some r) one h = omega arith

return_blocks-Grown :
    (m : Memory) (p : ClassPool) (b : Batch) (epoch blocks : ℕ)
    → Returns (Grown blocks p) (return_blocks m p b epoch blocks)
unfolding return_blocks
return_blocks-Grown m p b epoch zero = omega arith
return_blocks-Grown m p b epoch (suc blocks) =
    Returns->>= (λ r. Unit {0}) (Grown (suc blocks) p) (batch_pop_block_unchecked m b) _
      (Returns-any (batch_pop_block_unchecked m b))
      (λ (block, rest) h.
        Returns->>= (Grown 1 p) (Grown (suc blocks) p) (return_block m p block epoch) _
          (return_block-Grown m p block epoch)
          (λ (q, m') grown.
            more-Grown blocks p q (return_blocks m' q rest epoch blocks) grown
              (return_blocks-Grown m' q rest epoch blocks)))

-- Every return of a batch that ends adds to the count of the pool exactly the blocks of the batch,
-- whatever slabs they belong to, buckets they pass and sweep they set off.
pub return_batch-count :
    (page_size : ℕ) (advise : ℕ → ℕ → Result ℕ Bool) (m m' : Memory) (p p' : ClassPool) (b : Batch)
    → return_batch page_size advise m p b ≡ some (p', m')
    → central_block_count p' ≡ b.len + central_block_count p
unfolding return_batch bump_epoch central_block_count
return_batch-count page_size advise m m' p p' b e =
    Returns-some (Grown b.len p) (return_batch page_size advise m p b) (p', m') grown e
  where
    grown : Returns (Grown b.len p) (return_batch page_size advise m p b)
    grown = elim (Bool-cases (b.len == 0)) [
      | inl z ↦ rw z (omega (arith, ==→eq b.len 0 z))
      | inr z ↦ rw z (
          Returns->>= (λ q. held q.slabs ≡ held p.slabs) (Grown b.len p) (bump_epoch p) _ bumped
            (λ q same.
              Returns->>= (Grown b.len q) (Grown b.len p) (return_blocks m q b q.epoch b.len) _
                (return_blocks-Grown m q b q.epoch b.len)
                (λ (r, m'') more.
                  Returns->>= (SameHeld r) (Grown b.len p) (maybe_sweep page_size advise r) _
                    (maybe_sweep-held page_size advise r) (λ t kept. omega arith))))
    ]
      where
        bumped : Returns (λ q. held q.slabs ≡ held p.slabs) (bump_epoch p)
        bumped =
            Returns->>= (λ n. Unit {0}) (λ q. held q.slabs ≡ held p.slabs) (checked_add p.epoch 1) _
              (Returns-any (checked_add p.epoch 1)) (λ n h. refl)
