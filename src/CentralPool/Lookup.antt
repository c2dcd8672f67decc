-- ===== src/CentralPool/Lookup.antt =====
-- `find_slab_id_unchecked` of src/central_pool.rs finds the slab of a block.
use orthotope.Prelude.{
  ℕ, zero, suc, ◌+◌, ◌-◌, ◌≤◌, ◌<◌, ◌≡◌, refl, subst, sym, ap, true, Option, some, List, [], ◌∷◌,
  arith, get_elem?, Bool-cases, Option-cases, inl, inr, ne→==, le→leb, lt→leb,
}
use orthotope.Prelude.Search.{partition_point}
use orthotope.CentralPool.Slab.{SlabRecord, contains}
use orthotope.CentralPool.Pool.{ClassPool}
use orthotope.CentralPool.Exchange.{start_of, recent_with, find_by_start, find_slab_id_unchecked}

-- The ids name slabs of at least one byte. The first begins at or after `low`, and each other one where the
-- one before it ends, or after that: the slabs are in ascending order and do not overlap.
abbrev pub Ascending : List SlabRecord → ℕ → List ℕ → Type 0
Ascending slabs low [] = Unit {0}
Ascending slabs low (id ∷ ids) =
    (s : SlabRecord) × (get_elem? slabs id ≡ some s)
    × (low ≤ s.start)
    × (s.start < s.end_addr)
    × Ascending slabs s.end_addr ids

the_first :
    (slabs : List SlabRecord) (id j : ℕ) (t s : SlabRecord)
    → get_elem? slabs id ≡ some t
    → some id ≡ some j
    → get_elem? slabs j ≡ some s
    → t ≡ s
the_first slabs id j t s here same found = cc

Ascending-at :
    (slabs : List SlabRecord) (low : ℕ) (ids : List ℕ) (k j : ℕ) (s : SlabRecord)
    → Ascending slabs low ids
    → get_elem? ids k ≡ some j
    → get_elem? slabs j ≡ some s
    → low ≤ s.start
Ascending-at slabs low [] k j s up at_k found = cc
Ascending-at slabs low (id ∷ ids) zero j s (t, here, above, wide, rest) at_k found =
    subst (λ (r : SlabRecord). low ≤ r.start) (the_first slabs id j t s here at_k found) above
Ascending-at slabs low (id ∷ ids) (suc k) j s (t, here, above, wide, rest) at_k found =
    omega (arith, Ascending-at slabs t.end_addr ids k j s rest at_k found)

-- Below the first slab nothing is passed.
partition_point-zero :
    (slabs : List SlabRecord) (low addr : ℕ) (ids : List ℕ)
    → Ascending slabs low ids
    → addr < low
    → partition_point (start_of slabs) addr ids ≡ some 0
unfolding partition_point
partition_point-zero slabs low addr [] up h = refl
partition_point-zero slabs low addr (id ∷ ids) (t, here, above, wide, rest) h =
    rw
      (
        here,
        partition_point-zero slabs t.end_addr addr ids rest (omega arith),
        lt→leb t.start addr (omega arith),
      )
      refl

partition_point-at :
    (slabs : List SlabRecord) (low addr : ℕ) (ids : List ℕ) (k j : ℕ) (s : SlabRecord)
    → Ascending slabs low ids
    → get_elem? ids k ≡ some j
    → get_elem? slabs j ≡ some s
    → s.start ≤ addr
    → addr < s.end_addr
    → partition_point (start_of slabs) addr ids ≡ some (k + 1)
unfolding partition_point
partition_point-at slabs low addr [] k j s up at_k found from to = cc
partition_point-at slabs low addr (id ∷ ids) zero j s (t, here, above, wide, rest) at_k found from
      to =
    let same = the_first slabs id j t s here at_k found in
    let wider : addr < t.end_addr = subst (λ (r : SlabRecord). addr < r.end_addr) (sym same) to in
    let lower : t.start ≤ addr = subst (λ (r : SlabRecord). r.start ≤ addr) (sym same) from in
    rw (here, partition_point-zero slabs t.end_addr addr ids rest wider, le→leb t.start addr lower)
      refl
partition_point-at slabs low addr (id ∷ ids) (suc k) j s (t, here, above, wide, rest) at_k found
      from to =
    rw
      (
        here,
        partition_point-at slabs t.end_addr addr ids k j s rest at_k found from to,
        le→leb t.start addr
            (omega (arith, Ascending-at slabs t.end_addr ids k j s rest at_k found)),
      )
      (ap some (omega arith))

find_by_start-at :
    (p : ClassPool) (block k j : ℕ) (s : SlabRecord)
    → Ascending p.slabs 0 p.slabs_by_start
    → get_elem? p.slabs_by_start k ≡ some j
    → get_elem? p.slabs j ≡ some s
    → contains s block ≡ true
    → find_by_start p block ≡ some (j, record p { recent_slab = some j })
unfolding find_by_start contains
find_by_start-at p block k j s up at_k found inside =
    let back : k + 1 - 1 ≡ k = omega arith in
    rw
      (
        partition_point-at p.slabs 0 block p.slabs_by_start k j s up at_k found (ground arith)
            (ground arith),
        ne→== (k + 1) 0 (omega arith),
        back,
        at_k,
      )
      refl

-- In a pool whose list by start names slabs of at least one byte, in ascending order and without overlap,
-- and whose recent slab, if there is one, is in the table, a block of a slab of that list is found: the
-- call returns, the id that comes back names a slab that contains the block, and no slab changes.
pub find_slab_id-contains :
    (p : ClassPool) (block k j : ℕ) (s : SlabRecord)
    → Ascending p.slabs 0 p.slabs_by_start
    → ((id : ℕ) → p.recent_slab ≡ some id → (t : SlabRecord) × (get_elem? p.slabs id ≡ some t))
    → get_elem? p.slabs_by_start k ≡ some j
    → get_elem? p.slabs j ≡ some s
    → contains s block ≡ true
    → (id : ℕ) × (p' : ClassPool) × (t : SlabRecord) × (find_slab_id_unchecked p block
        ≡ some (id, p'))
      × (p'.slabs ≡ p.slabs)
      × (get_elem? p.slabs id ≡ some t)
      × (contains t block ≡ true)
unfolding find_slab_id_unchecked recent_with
find_slab_id-contains p block k j s up known at_k found inside =
    let by_start = find_by_start-at p block k j s up at_k found inside in
    elim (Option-cases p.recent_slab) [
      | inl e ↦ (
        j,
        record p { recent_slab = some j },
        s,
        rw (recent_with, e, by_start) refl,
        refl,
        found,
        inside,
      )
      | inr (r, e) ↦
          let (t, here) = known r e in
          elim (Bool-cases (contains t block)) [
            | inl has ↦ (
              r,
              p,
              t,
              rw (recent_with, e, here, has)
                  (ap (λ (o : Option ℕ). some (r, record p { recent_slab = o })) e),
              refl,
              here,
              has,
            )
            | inr not_it ↦ (
              j,
              record p { recent_slab = some j },
              s,
              rw (recent_with, e, here, not_it, by_start) refl,
              refl,
              found,
              inside,
            )
          ]
    ]
