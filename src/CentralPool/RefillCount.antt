-- ===== src/CentralPool/RefillCount.antt =====
-- `take_refill` of src/central_pool.rs takes from the count exactly the blocks that it gives.
use orthotope.Prelude.{
  ℕ, ◌+◌, ◌-◌, ◌≤◌, ◌≡◌, refl, ◌∙◌, ap, Bool, some, ◌==◌, arith, get_elem?, Bool-cases,
  Option-cases, inl, inr, Result,
}
use orthotope.Prelude.Word.{checked_add}
use orthotope.Prelude.Panics.{◌>>=◌, Returns, Returns-self, Returns->>=, Returns-some, Returns-any}
use orthotope.Header.Memory.{Memory}
use orthotope.FreeList.{FreeList, Batch, pop_batch_unchecked}
use orthotope.CentralPool.Slab.{SlabRecord, loaned, partial, take_partial_batch}
use orthotope.CentralPool.Pool.{ClassPool, CentralRefill, empty, batch, slab, with_slab}
use orthotope.CentralPool.Sweep.{bump_epoch, maybe_sweep}
use orthotope.CentralPool.Exchange.{
  last_of, loan_whole_slab, choose_refill, take_refill, central_block_count,
}
use orthotope.CentralPool.Conserve.{
  held, held-set_elem, SameHeld, state-held, transition-held, maybe_sweep-held,
}

-- The blocks that a refill carries
abbrev pub refill_blocks : CentralRefill → ℕ
refill_blocks empty = 0
refill_blocks (batch b) = b.len
refill_blocks (slab start block_size capacity) = capacity

-- No slab lists more blocks than it counts, and a slab in a bucket of full ones counts its capacity.
pub record IsCounted (p : ClassPool) : Type 0 where
  pub listed :
      (id : ℕ) (s : SlabRecord)
      → get_elem? p.slabs id ≡ some s
      → s.partial_free.len ≤ s.central_free_len
  pub hot :
      (k id : ℕ) (s : SlabRecord)
      → get_elem? p.full_hot_slabs k ≡ some id
      → get_elem? p.slabs id ≡ some s
      → s.central_free_len ≡ s.capacity
  pub cold :
      (k id : ℕ) (s : SlabRecord)
      → get_elem? p.full_cold_slabs k ≡ some id
      → get_elem? p.slabs id ≡ some s
      → s.central_free_len ≡ s.capacity

pop_batch-len :
    (m m' : Memory) (l l' : FreeList) (b : Batch) (max : ℕ)
    → pop_batch_unchecked m l max ≡ some (b, l', m')
    → b.len ≤ l.len
unfolding pop_batch_unchecked
pop_batch-len m m' l l' b max e = ground arith

-- What `take_partial_batch` leaves of the count
abbrev Less : SlabRecord → Batch × SlabRecord × Memory → Type 0
Less s r =
    ((r.1).central_free_len ≡ s.central_free_len - (r.0).len) × ((r.0).len ≤ s.partial_free.len)

take_partial-Less :
    (m : Memory) (s : SlabRecord) (max : ℕ) → Returns (Less s) (take_partial_batch m s max)
unfolding take_partial_batch
take_partial-Less m s max =
    Returns->>= (λ r. pop_batch_unchecked m s.partial_free max ≡ some r) (Less s)
      (pop_batch_unchecked m s.partial_free max) _
      (Returns-self (pop_batch_unchecked m s.partial_free max))
      (λ (b, l, m') e. (refl, pop_batch-len m m' s.partial_free l b max e))

-- A refill and the pool that is left: together they have the blocks of `p`.
abbrev pub Split : ClassPool → CentralRefill × ClassPool × Memory → Type 0
Split p r = held (r.1).slabs + refill_blocks (r.0) ≡ held p.slabs

abbrev Lent : ClassPool → CentralRefill × ClassPool → Type 0
Lent p r = held (r.1).slabs + refill_blocks (r.0) ≡ held p.slabs

loan-Lent :
    (p : ClassPool) (id epoch : ℕ)
    → ((s : SlabRecord) → get_elem? p.slabs id ≡ some s → s.central_free_len ≡ s.capacity)
    → Returns (Lent p) (loan_whole_slab p id epoch)
unfolding loan_whole_slab
loan-Lent p id epoch full =
    Returns->>= (λ s. get_elem? p.slabs id ≡ some s) (Lent p) (get_elem? p.slabs id) _
      (Returns-self (get_elem? p.slabs id))
      (λ s found.
        let lent = record s { state = loaned; central_free_len = 0; last_touched_epoch = epoch } in
        let q = record (with_slab p id lent) { recent_slab = some id } in
        Returns->>= (SameHeld q) (Lent p) _ _ (transition-held q id s.state loaned)
          (λ r same. omega (arith, full s found, held-set_elem p.slabs id s lent found)))

lent-Split :
    (m : Memory) (p q : ClassPool) (id : ℕ)
    → q.slabs ≡ p.slabs
    → ((s : SlabRecord) → get_elem? q.slabs id ≡ some s → s.central_free_len ≡ s.capacity)
    → Returns (Split p) (loan_whole_slab q id q.epoch >>= λ (refill, p'). some (refill, p', m))
lent-Split m p q id same full =
    Returns->>= (Lent q) (Split p) (loan_whole_slab q id q.epoch) _ (loan-Lent q id q.epoch full)
      (λ (refill, p') lent. lent ∙ ap held same)

choose_refill-Split :
    (m : Memory) (p : ClassPool) (max : ℕ) → IsCounted p → Returns (Split p) (choose_refill m p max)
unfolding choose_refill
choose_refill-Split m p max is = elim (Option-cases (last_of p.partial_slabs)) [
  | inr (id, e) ↦
      rw (choose_refill, e)
        (Returns->>= (λ s. get_elem? p.slabs id ≡ some s) (Split p) (get_elem? p.slabs id) _
          (Returns-self (get_elem? p.slabs id))
          (λ s found.
            Returns->>= (Less s) (Split p) (take_partial_batch m s max) _
              (take_partial-Less m s max)
              (λ (b, s', m') less.
                let touched = record s' { last_touched_epoch = p.epoch } in
                let q = record (with_slab p id touched) { recent_slab = some id } in
                Returns->>= (SameHeld q) (Split p) _ _ (state-held q id partial) (λ r same.
                  omega (
                    arith,
                    less,
                    is.listed id s found,
                    held-set_elem p.slabs id s touched found,
                  )))))
  | inl e ↦ elim (Option-cases (last_of p.full_hot_slabs)) [
    | inr (id, e') ↦
        rw (choose_refill, e, e') (lent-Split m p p id refl (λ s found. is.hot _ id s e' found))
    | inl e' ↦ elim (Option-cases (last_of p.full_cold_slabs)) [
      | inr (id, e'') ↦
          rw (choose_refill, e, e', e'')
            (lent-Split m p p id refl (λ s found. is.cold _ id s e'' found))
      | inl e'' ↦ rw (choose_refill, e, e', e'') (omega arith)
    ]
  ]
]

-- Where no slab lists more blocks than it counts and the slabs in the buckets of full ones count their
-- capacity, every refill that ends takes from the count of the pool exactly the blocks that it gives: those
-- of the batch, all blocks of the slab, or none.
pub take_refill-count :
    (page_size : ℕ) (advise : ℕ → ℕ → Result ℕ Bool) (m m' : Memory) (p p' : ClassPool) (max : ℕ)
    (refill : CentralRefill)
    → IsCounted p
    → take_refill page_size advise m p max ≡ some (refill, p', m')
    → central_block_count p' + refill_blocks refill ≡ central_block_count p
unfolding take_refill bump_epoch central_block_count
take_refill-count page_size advise m m' p p' max refill is e =
    Returns-some (Split p) (take_refill page_size advise m p max) (refill, p', m') split e
  where
    split : Returns (Split p) (take_refill page_size advise m p max)
    split = elim (Bool-cases (max == 0)) [
      | inl z ↦ rw z (omega arith)
      | inr z ↦ rw z (
          Returns->>= (λ q. (held q.slabs ≡ held p.slabs) × IsCounted q) (Split p) (bump_epoch p) _
            bumped
            (λ q (same, counted).
              Returns->>= (Split q) (Split p) (choose_refill m q max) _
                (choose_refill-Split m q max counted)
                (λ (given, r, m'') split'.
                  Returns->>= (SameHeld r) (Split p) (maybe_sweep page_size advise r) _
                    (maybe_sweep-held page_size advise r) (λ t kept. omega arith))))
    ]
      where
        bumped : Returns (λ q. (held q.slabs ≡ held p.slabs) × IsCounted q) (bump_epoch p)
        bumped =
            Returns->>= (λ n. Unit {0}) (λ q. (held q.slabs ≡ held p.slabs) × IsCounted q)
              (checked_add p.epoch 1) _ (Returns-any (checked_add p.epoch 1))
              (λ n h. (refl, record { listed = is.listed; hot = is.hot; cold = is.cold }))
