-- ===== src/ThreadCache/Headers.antt =====
-- What the operations of src/thread_cache.rs that a free runs leave of the headers: every prefix and every
-- freed marker.
use orthotope.Prelude.{
  ℕ, ◌+◌, ◌-◌, min, ◌||◌, ◌≡◌, refl, ◌∙◌, Bool, Option, none, some, ◌==◌, get_elem?, if◌then◌else◌,
  inl, inr, Bool-cases, Option-cases,
}
use orthotope.Prelude.Panics.{◌>>=◌, Returns, Returns->>=, Returns-any}
use orthotope.Header.{prefix_of}
use orthotope.Header.Memory.{Memory, write_small_free_list_next}
use orthotope.Header.Marker.{link_frame}
use orthotope.SizeClass.{SizeClass, index}
use orthotope.FreeList.{FreeList, Batch, walk, pop_batch_unchecked}
use orthotope.FreeList
use orthotope.CentralPool.{CentralPool, publish_remote_batch}
use orthotope.CentralPool.Inbox.{RemoteReturnInbox, push_batch}
use orthotope.ThreadCache.LocalSlab
use orthotope.ThreadCache.LocalSlab.{LocalSlab, has_available_blocks}
use orthotope.ThreadCache.ClassCache.{LocalClassCache, with_slab, mark_slab_available}
use orthotope.ThreadCache.Blocks.{
  find_slab, recent_with, push_to_slab, push_shared, push_spilled_block, push_block,
}
use orthotope.ThreadCache.RemoteReturns.{RemoteReturnCache, take_all_unchecked}
use orthotope.ThreadCache.RemoteReturns

-- Every block has the same prefix and the same marker.
abbrev pub SameHeads : Memory → Memory → Type 0
SameHeads m m' =
    (a : ℕ)
    → (prefix_of (m' a) ≡ prefix_of (m a)) × ((m' a).small_free_marker ≡ (m a).small_free_marker)

pub SameHeads-refl : (m : Memory) → SameHeads m m
SameHeads-refl m a = (refl, refl)

pub SameHeads-trans : (m m' m'' : Memory) → SameHeads m m' → SameHeads m' m'' → SameHeads m m''
SameHeads-trans m m' m'' f g a = ((g a).0 ∙ (f a).0, (g a).1 ∙ (f a).1)

link-SameHeads :
    (m : Memory) (block : ℕ) (next : Option ℕ)
    → SameHeads m (write_small_free_list_next m block next)
link-SameHeads m block next a = let (p, k, _) = link_frame m block a next in (p, k)

pub push_block-SameHeads :
    (m : Memory) (l : FreeList) (block : ℕ) → SameHeads m (FreeList.push_block m l block).1
unfolding FreeList.push_block
push_block-SameHeads m l block = link-SameHeads m block l.head

push_batch-SameHeads :
    (m : Memory) (l : FreeList) (b : Batch)
    → Returns (λ (l', m'). SameHeads m m') (FreeList.push_batch m l b)
unfolding FreeList.push_batch
push_batch-SameHeads m l b = elim (Bool-cases (b.len == 0)) [
  | inl e ↦ rw (Returns, FreeList.push_batch, e) (SameHeads-refl m)
  | inr e ↦ elim (Option-cases b.head) [
    | inl h ↦ rw (Returns, FreeList.push_batch, e, h) tt
    | inr (head, h) ↦ elim (Option-cases b.tail) [
      | inl t ↦ rw (Returns, FreeList.push_batch, e, h, t) tt
      | inr (tail, t) ↦ rw (Returns, FreeList.push_batch, e, h, t) (link-SameHeads m tail l.head)
    ]
  ]
]

pop_batch-SameHeads :
    (m : Memory) (l : FreeList) (max : ℕ)
    → Returns (λ (b, l', m'). SameHeads m m') (pop_batch_unchecked m l max)
unfolding pop_batch_unchecked
pop_batch-SameHeads m l max = elim (Bool-cases ((max == 0) || (l.len == 0))) [
  | inl e ↦ rw (Returns, pop_batch_unchecked, e) tt
  | inr e ↦ elim (Option-cases l.head) [
    | inl h ↦ rw (Returns, pop_batch_unchecked, e, h) tt
    | inr (head, h) ↦ elim (Option-cases (walk m (min max l.len - 1) head)) [
      | inl t ↦ rw (Returns, pop_batch_unchecked, e, h, t) tt
      | inr (tail, t) ↦ rw (Returns, pop_batch_unchecked, e, h, t) (link-SameHeads m tail none)
    ]
  ]
]

Kept-SameHeads :
    (m m' : Memory) (o : Option LocalClassCache)
    → SameHeads m m'
    → Returns (λ (c', m''). SameHeads m m'') (o >>= λ c'. some (c', m'))
Kept-SameHeads m m' none h = tt
Kept-SameHeads m m' (some c') h = h

push_to_slab-SameHeads :
    (m : Memory) (c : LocalClassCache) (id block : ℕ)
    → Returns (λ (c', m'). SameHeads m m') (push_to_slab m c id block)
unfolding push_to_slab LocalSlab.push_block
push_to_slab-SameHeads m c id block =
    Returns->>= (λ s. Unit {0}) (λ (c', m'). SameHeads m m') (get_elem? c.slabs id) _
      (Returns-any (get_elem? c.slabs id))
      (λ s h.
        let pushed = with_slab c id (LocalSlab.push_block m s block).0 in
        Kept-SameHeads m (LocalSlab.push_block m s block).1
          (if has_available_blocks s then some pushed else mark_slab_available pushed id)
          (push_block-SameHeads m s.free block))

push_spilled-SameHeads :
    (debug : Bool) (m : Memory) (c : LocalClassCache) (block : ℕ)
    → Returns (λ (c', m'). SameHeads m m') (push_spilled_block debug m c block)
unfolding push_spilled_block push_shared
push_spilled-SameHeads debug m c block =
    Returns->>= (λ r. Unit {0}) (λ (c', m'). SameHeads m m') (recent_with debug c block) _
      (Returns-any (recent_with debug c block)) (λ r h. spill r)
  where
    found :
        (f : Option ℕ)
        → Returns
            (λ (c', m'). SameHeads m m')
            (elim f [
              | some id ↦ push_to_slab m (record c { recent_slab = some id }) id block
              | none ↦ some (push_shared m c block)
            ])
    found none = push_block-SameHeads m c.shared block
    found (some id) = push_to_slab-SameHeads m (record c { recent_slab = some id }) id block

    spill :
        (r : Option ℕ)
        → Returns
            (λ (c', m'). SameHeads m m')
            (elim r [
              | some id ↦ push_to_slab m c id block
              | none ↦ find_slab debug c block >>= λ f. elim f [
                | some id ↦ push_to_slab m (record c { recent_slab = some id }) id block
                | none ↦ some (push_shared m c block)
              ]
            ])
    spill (some id) = push_to_slab-SameHeads m c id block
    spill none =
        Returns->>= (λ f. Unit {0}) (λ (c', m'). SameHeads m m') (find_slab debug c block) _
          (Returns-any (find_slab debug c block)) (λ f h. found f)

-- A block pushed onto a class cache
pub push_block-class :
    (debug : Bool) (m : Memory) (c : LocalClassCache) (block : ℕ)
    → Returns (λ (c', m'). SameHeads m m') (push_block debug m c block)
unfolding push_block
push_block-class debug m c block = elim (Option-cases c.hot_block) [
  | inl e ↦ rw (Returns, push_block, e) (SameHeads-refl m)
  | inr (previous, e) ↦
      rw (push_block, e)
        (push_spilled-SameHeads debug m
          (record c { hot_block = some block; total_len = c.total_len + 1 }) previous)
]

-- A block staged for its owner, and the blocks staged so published to the pool
pub push_remote-SameHeads :
    (m : Memory) (r : RemoteReturnCache) (block : ℕ)
    → SameHeads m (RemoteReturns.push_block m r block).1
unfolding RemoteReturns.push_block
push_remote-SameHeads m r block = push_block-SameHeads m r.pending block

pub take_all-SameHeads :
    (m : Memory) (r : RemoteReturnCache)
    → Returns (λ (b, r', m'). SameHeads m m') (take_all_unchecked m r)
unfolding take_all_unchecked
take_all-SameHeads m r =
    Returns->>= (λ (b, l', m'). SameHeads m m') (λ (b, r', m'). SameHeads m m')
      (pop_batch_unchecked m r.pending r.pending_len) _
      (pop_batch-SameHeads m r.pending r.pending_len) (λ x h. h)

pub publish-SameHeads :
    (m : Memory) (c : CentralPool) (class : SizeClass) (b : Batch)
    → Returns (λ (c', m'). SameHeads m m') (publish_remote_batch m c class b)
unfolding publish_remote_batch push_batch
publish-SameHeads m c class b =
    Returns->>= (λ i. Unit {0}) (λ (c', m'). SameHeads m m')
      (get_elem? c.remote_inboxes (index class)) _
      (Returns-any (get_elem? c.remote_inboxes (index class)))
      (λ i h.
        Returns->>= (λ (i', m'). SameHeads m m') (λ (c', m'). SameHeads m m') (push_batch m i b) _
          (pushed i) (λ x h'. h'))
  where
    pushed : (i : RemoteReturnInbox) → Returns (λ (i', m'). SameHeads m m') (push_batch m i b)
    pushed i = elim (Bool-cases (b.len == 0)) [
      | inl e ↦ rw (Returns, push_batch, e) (SameHeads-refl m)
      | inr e ↦
          rw (push_batch, e)
            (Returns->>= (λ (l', m'). SameHeads m m') (λ (i', m'). SameHeads m m')
              (FreeList.push_batch m i.pending b) _ (push_batch-SameHeads m i.pending b) (λ x h. h))
    ]
