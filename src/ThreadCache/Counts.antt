-- ===== src/ThreadCache/Counts.antt =====
-- What the operations of `LocalClassCache` (src/thread_cache.rs) do to its count of blocks.
use orthotope.Prelude.{
  ℕ, ◌+◌, ◌≡◌, refl, ◌++◌, [], ◌∷◌, length, Bool, Option, none, some, get_elem?, if◌then◌else◌, inl,
  inr, Bool-cases, Option-cases,
}
use orthotope.Prelude.Panics.{◌>>=◌, Returns, Returns->>=, Returns-any}
use orthotope.Header.Memory.{Memory}
use orthotope.ThreadCache.LocalSlab
use orthotope.ThreadCache.LocalSlab.{LocalSlab, has_available_blocks}
use orthotope.ThreadCache.ClassCache.{LocalClassCache, with_slab, mark_slab_available}
use orthotope.ThreadCache.Blocks.{
  find_slab, recent_with, push_to_slab, push_shared, push_spilled_block, push_block,
}

-- The count is `n`.
abbrev pub Total : ℕ → LocalClassCache → Type 0
Total n c = c.total_len ≡ n

pub available-Total :
    (c : LocalClassCache) (id : ℕ) → Returns (Total c.total_len) (mark_slab_available c id)
unfolding mark_slab_available
available-Total c id =
    Returns->>= (λ s. Unit {0}) (Total c.total_len) (get_elem? c.slabs id) _
      (Returns-any (get_elem? c.slabs id)) (λ s h. marked s s.available_slot)
  where
    marked :
        (s : LocalSlab) (slot : Option ℕ)
        → Returns (Total c.total_len) (elim slot [
          | some _ ↦ some c
          | none ↦ some (
              with_slab
                (record c { available_slabs = c.available_slabs ++ (id ∷ []) })
                id
                (record s { available_slot = some (length c.available_slabs) }))
        ])
    marked s none = refl
    marked s (some slot) = refl

kept-Total :
    (n : ℕ) (m : Memory) (o : Option LocalClassCache)
    → Returns (Total n) o
    → Returns (λ (c, m'). Total n c) (o >>= λ c. some (c, m))
kept-Total n m none h = tt
kept-Total n m (some c) h = h

push_to_slab-Total :
    (m : Memory) (c : LocalClassCache) (id block : ℕ)
    → Returns (λ (c', m'). Total c.total_len c') (push_to_slab m c id block)
unfolding push_to_slab
push_to_slab-Total m c id block =
    Returns->>= (λ s. Unit {0}) (λ (c', m'). Total c.total_len c') (get_elem? c.slabs id) _
      (Returns-any (get_elem? c.slabs id)) (λ s h. kept-Total c.total_len _ _ (ready s))
  where
    pushed : LocalSlab → LocalClassCache
    pushed s = with_slab c id (LocalSlab.push_block m s block).0

    ready :
        (s : LocalSlab)
        → Returns
            (Total c.total_len)
            (if has_available_blocks s then some (pushed s) else mark_slab_available (pushed s) id)
    ready s = elim (Bool-cases (has_available_blocks s)) [
      | inl e ↦ rw (Returns, e) refl
      | inr e ↦ rw e (available-Total (pushed s) id)
    ]

push_spilled-Total :
    (debug : Bool) (m : Memory) (c : LocalClassCache) (block : ℕ)
    → Returns (λ (c', m'). Total c.total_len c') (push_spilled_block debug m c block)
unfolding push_spilled_block push_shared
push_spilled-Total debug m c block =
    Returns->>= (λ r. Unit {0}) (λ (c', m'). Total c.total_len c') (recent_with debug c block) _
      (Returns-any (recent_with debug c block)) (λ r h. spill r)
  where
    found :
        (f : Option ℕ)
        → Returns
            (λ (c', m'). Total c.total_len c')
            (elim f [
              | some id ↦ push_to_slab m (record c { recent_slab = some id }) id block
              | none ↦ some (push_shared m c block)
            ])
    found none = refl
    found (some id) = push_to_slab-Total m (record c { recent_slab = some id }) id block

    spill :
        (r : Option ℕ)
        → Returns
            (λ (c', m'). Total c.total_len c')
            (elim r [
              | some id ↦ push_to_slab m c id block
              | none ↦ find_slab debug c block >>= λ f. elim f [
                | some id ↦ push_to_slab m (record c { recent_slab = some id }) id block
                | none ↦ some (push_shared m c block)
              ]
            ])
    spill (some id) = push_to_slab-Total m c id block
    spill none =
        Returns->>= (λ f. Unit {0}) (λ (c', m'). Total c.total_len c') (find_slab debug c block) _
          (Returns-any (find_slab debug c block)) (λ f h. found f)

-- A pushed block is counted once, whether it takes an empty hot slot or spills the block that was there.
pub push_block-Total :
    (debug : Bool) (m : Memory) (c : LocalClassCache) (block : ℕ)
    → Returns (λ (c', m'). Total (c.total_len + 1) c') (push_block debug m c block)
unfolding push_block
push_block-Total debug m c block = elim (Option-cases c.hot_block) [
  | inl e ↦ rw (Returns, push_block, e) refl
  | inr (previous, e) ↦
      rw (push_block, e)
        (push_spilled-Total debug m
          (record c { hot_block = some block; total_len = c.total_len + 1 }) previous)
]
