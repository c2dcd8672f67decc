-- ===== src/ThreadCache/SlabCounts.antt =====
-- How many blocks the batches of `LocalSlab` and of free lists have (src/thread_cache.rs, src/free_list.rs).
use orthotope.Prelude.{
  ℕ, zero, suc, ◌+◌, ◌-◌, ◌*◌, ◌<◌, min, ◌≡◌, refl, ◌||◌, ◌==◌, inl, inr, arith, Bool-cases,
  Option-cases,
}
use orthotope.Prelude.Word.{wrapping_add}
use orthotope.Prelude.Panics.{Returns, Returns->>=, Returns-map}
use orthotope.Header.Memory.{Memory, initialize_small_to_block_unchecked}
use orthotope.SizeClass.{SizeClass}
use orthotope.FreeList.{FreeList, Batch, walk, pop_batch_unchecked}
use orthotope.FreeList
use orthotope.ThreadCache.LocalSlab.{LocalSlab, move_reclaimed, carve_fresh, pop_batch}

-- The blocks that a slab can still give out: the reclaimed ones and the fresh ones
abbrev pub blocks : LocalSlab → ℕ
blocks s = (s.free).len + (s.capacity - s.next_fresh)

pub pop_batch-count :
    (m : Memory) (l : FreeList) (max : ℕ)
    → Returns
        (λ (b, l', m'). (0 < b.len) × (b.len ≡ min max l.len) × (l'.len + b.len ≡ l.len))
        (pop_batch_unchecked m l max)
unfolding pop_batch_unchecked
pop_batch-count m l max = elim (Bool-cases ((max == 0) || (l.len == 0))) [
  | inl e ↦ rw (Returns, pop_batch_unchecked, e) tt
  | inr e ↦ elim (Option-cases l.head) [
    | inl h ↦ rw (Returns, pop_batch_unchecked, e, h) tt
    | inr (head, h) ↦ elim (Option-cases (walk m (min max l.len - 1) head)) [
      | inl t ↦ rw (Returns, pop_batch_unchecked, e, h, t) tt
      | inr (tail, t) ↦
          rw (Returns, pop_batch_unchecked, e, h, t) (ground arith, refl, ground arith)
    ]
  ]
]

pop_block-count :
    (m : Memory) (l : FreeList)
    → Returns (λ (block, l'). l'.len + 1 ≡ l.len) (FreeList.pop_block_unchecked m l)
unfolding FreeList.pop_block_unchecked
pop_block-count m l = elim (Bool-cases (l.len == 0)) [
  | inl e ↦ rw (Returns, FreeList.pop_block_unchecked, e) tt
  | inr e ↦ elim (Option-cases l.head) [
    | inl h ↦ rw (Returns, FreeList.pop_block_unchecked, e, h) tt
    | inr (head, h) ↦ rw (Returns, FreeList.pop_block_unchecked, e, h) (ground arith)
  ]
]

-- So many blocks have moved.
abbrev Moved : ℕ → FreeList → FreeList → FreeList × FreeList × Memory → Type 0
Moved n free list (free', list', m') = (free'.len + n ≡ free.len) × (list'.len ≡ list.len + n)

move-Moved :
    (rounds : ℕ) (m : Memory) (free list : FreeList)
    → Returns (Moved rounds free list) (move_reclaimed rounds m free list)
unfolding move_reclaimed FreeList.push_block
move-Moved zero m free list = (omega arith, omega arith)
move-Moved (suc rounds) m free list =
    Returns->>= (λ (block, left). left.len + 1 ≡ free.len) (Moved (suc rounds) free list)
      (FreeList.pop_block_unchecked m free) _ (pop_block-count m free)
      (λ (block, left) h.
        let (pushed, m') = FreeList.push_block m list block in
        Returns-map (Moved rounds left pushed) (Moved (suc rounds) free list)
          (move_reclaimed rounds m' left pushed)
          (λ (free', list', m2) (taken, put). (omega arith, omega arith))
          (move-Moved rounds m' left pushed))

carve_fresh-len :
    (rounds : ℕ) (m : Memory) (class : SizeClass) (block_size block : ℕ) (list : FreeList)
    → ((carve_fresh rounds m class block_size block list).0).len ≡ list.len + rounds
unfolding carve_fresh FreeList.push_block
carve_fresh-len zero m class block_size block list = omega arith
carve_fresh-len (suc rounds) m class block_size block list =
    let (pushed, m') =
      FreeList.push_block (initialize_small_to_block_unchecked m block class) list block in
    omega (arith, carve_fresh-len rounds m' class block_size (wrapping_add block block_size) pushed)

-- A batch of a slab takes at least one block from it, and no more than the maximum.
abbrev pub Taken : LocalSlab → (max : ℕ) → Batch × LocalSlab × Memory → Type 0
Taken s max (taken, s', m') =
    (0 < taken.len)
    × (taken.len ≡ min max (blocks s))
    × (blocks s' + taken.len ≡ blocks s)
    × (s'.available_slot ≡ s.available_slot)

pub pop_batch-Taken :
    (m : Memory) (s : LocalSlab) (max : ℕ) (class : SizeClass)
    → Returns (Taken s max) (pop_batch m s max class)
unfolding pop_batch FreeList.new
pop_batch-Taken m s max class =
    let reclaimed = min (s.free).len max in
    let fresh = min (max - reclaimed) (s.capacity - s.next_fresh) in
    let first = wrapping_add s.start (s.next_fresh * s.block_size) in
    Returns->>= (Moved reclaimed s.free FreeList.new) (Taken s max)
      (move_reclaimed reclaimed m s.free FreeList.new) _
      (move-Moved reclaimed m s.free FreeList.new)
      (λ (left, list, m1) (taken, put).
        let (filled, m2) = carve_fresh fresh m1 class s.block_size first list in
        Returns->>=
          (λ (b, rest, m3).
            (0 < b.len)
            × (b.len ≡ min (reclaimed + fresh) filled.len)
            × (rest.len + b.len ≡ filled.len))
          (Taken s max) (pop_batch_unchecked m2 filled (reclaimed + fresh)) _
          (pop_batch-count m2 filled (reclaimed + fresh))
          (λ (b, rest, m3) (some_left, size, others).
            let carved = carve_fresh-len fresh m1 class s.block_size first list in
            (some_left, omega arith, omega arith, refl)))
