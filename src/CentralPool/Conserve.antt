-- ===== src/CentralPool/Conserve.antt =====
-- The blocks of a class pool of src/central_pool.rs are conserved: moving slabs between buckets and
-- sweeping change no count, and a returned batch adds as many blocks as it has.
use orthotope.Prelude.{
  ℕ, zero, suc, ◌+◌, ◌%◌, ◌||◌, ◌≡◌, refl, ◌∙◌, ap, Bool, not, Option, none, some, List, [], ◌∷◌,
  ◌++◌, ◌==◌, arith, length, get_elem?, set_elem, sum_by, Bool-cases, Option-cases, inl, inr,
  Result,
}
use orthotope.Prelude.Slots.{swap_remove}
use orthotope.Prelude.Panics.{Returns, Returns-self, Returns->>=, Returns-any}
use orthotope.Prelude.Word.{is_multiple_of}
use orthotope.Arena.{advise_free, page_aligned_inner_range}
use orthotope.CentralPool.Slab.{
  SlabRecord, SlabState, loaned, partial, full_hot, full_cold, is_sweep_candidate, span_len,
}
use orthotope.CentralPool.Pool.{
  ClassPool, sweep_interval, with_slab, with_slot, with_bucket, bucket, normalize_sweep_cursor,
  relabel_moved, is_loaned, leave_bucket, remove_from_bucket, add_to_bucket, same_state,
  reconcile_bucket_transition, reconcile_bucket_state,
}
use orthotope.CentralPool.Sweep.{sweep_slab, sweep_rounds, maybe_sweep, is_ok_true}

-- The blocks in the pool of a list of slabs
abbrev pub held : List SlabRecord → ℕ
held slabs = sum_by (λ s. s.central_free_len) slabs

abbrev weight : Option SlabRecord → ℕ
weight none = 0
weight (some s) = s.central_free_len

pub held-set_elem :
    (slabs : List SlabRecord) (id : ℕ) (s s' : SlabRecord)
    → get_elem? slabs id ≡ some s
    → held (set_elem slabs id s') + s.central_free_len ≡ held slabs + s'.central_free_len
held-set_elem [] id s s' h = cc
held-set_elem (t ∷ slabs) zero s s' h = omega (arith, ap (weight) h)
held-set_elem (t ∷ slabs) (suc id) s s' h = omega (arith, held-set_elem slabs id s s' h)

-- Some slab's record changed, and no count.
abbrev pub SameHeld : ClassPool → ClassPool → Type 0
SameHeld p p' = held p'.slabs ≡ held p.slabs

after-held :
    (p q : ClassPool) (o : Option ClassPool)
    → SameHeld p q
    → Returns (SameHeld q) o
    → Returns (SameHeld p) o
after-held p q none same h = tt
after-held p q (some r) same h = h ∙ same

with_slab-held :
    (p : ClassPool) (id : ℕ) (s s' : SlabRecord)
    → get_elem? p.slabs id ≡ some s
    → s'.central_free_len ≡ s.central_free_len
    → SameHeld p (with_slab p id s')
with_slab-held p id s s' found e = omega (arith, held-set_elem p.slabs id s s' found)

with_slot-held :
    (p : ClassPool) (id : ℕ) (slot : Option ℕ) → Returns (SameHeld p) (with_slot p id slot)
with_slot-held p id slot =
    Returns->>= (λ s. get_elem? p.slabs id ≡ some s) (SameHeld p) (get_elem? p.slabs id) _
      (Returns-self (get_elem? p.slabs id))
      (λ s found. omega (arith, held-set_elem p.slabs id s (record s { bucket_slot = slot }) found))

with_bucket-slabs :
    (p : ClassPool) (st : SlabState) (ids : List ℕ) → (with_bucket p st ids).slabs ≡ p.slabs
with_bucket-slabs p loaned ids = refl
with_bucket-slabs p partial ids = refl
with_bucket-slabs p full_hot ids = refl
with_bucket-slabs p full_cold ids = refl

normalize-slabs : (p : ClassPool) → (normalize_sweep_cursor p).slabs ≡ p.slabs
unfolding normalize_sweep_cursor
normalize-slabs p = ground arith

relabel_moved-held :
    (p : ClassPool) (st : SlabState) (slot : ℕ) → Returns (SameHeld p) (relabel_moved p st slot)
unfolding relabel_moved
relabel_moved-held p st slot = elim (Option-cases (get_elem? (bucket p st) slot)) [
  | inl e ↦ rw (relabel_moved, e) refl
  | inr (moved, e) ↦ rw (relabel_moved, e) (with_slot-held p moved (some slot))
]

leave_bucket-held :
    (p : ClassPool) (st : SlabState) (slot : ℕ) → Returns (SameHeld p) (leave_bucket p st slot)
unfolding leave_bucket
leave_bucket-held p st slot = elim (Bool-cases (is_loaned st)) [
  | inl e ↦ rw e refl
  | inr e ↦ rw e (
      Returns->>= (λ r. swap_remove (bucket p st) slot ≡ some r) (SameHeld p)
        (swap_remove (bucket p st) slot) _ (Returns-self (swap_remove (bucket p st) slot))
        (λ (removed, ids) h.
          Returns->>= (SameHeld (with_bucket p st ids)) (SameHeld p) _ _
            (relabel_moved-held (with_bucket p st ids) st slot)
            (λ q same. cc (normalize-slabs q, with_bucket-slabs p st ids))))
]

remove-held :
    (p : ClassPool) (id : ℕ) (st : SlabState) → Returns (SameHeld p) (remove_from_bucket p id st)
unfolding remove_from_bucket
remove-held p id st =
    Returns->>= (λ s. get_elem? p.slabs id ≡ some s) (SameHeld p) (get_elem? p.slabs id) _
      (Returns-self (get_elem? p.slabs id))
      (λ s found. elim (Option-cases (s.bucket_slot)) [
        | inl e ↦ rw e refl
        | inr (slot, e) ↦ rw e (
            after-held p (with_slab p id (record s { bucket_slot = none })) _
              (with_slab-held p id s (record s { bucket_slot = none }) found refl)
              (leave_bucket-held (with_slab p id (record s { bucket_slot = none })) st slot))
      ])

add-held : (p : ClassPool) (id : ℕ) (st : SlabState) → Returns (SameHeld p) (add_to_bucket p id st)
unfolding add_to_bucket
add-held p id st = elim (Bool-cases (is_loaned st)) [
  | inl e ↦ rw e (with_slot-held p id none)
  | inr e ↦ rw e (
      Returns->>= (SameHeld (with_bucket p st (bucket p st ++ (id ∷ [])))) (SameHeld p) _ _
        (with_slot-held (with_bucket p st (bucket p st ++ (id ∷ []))) id
          (some (length (bucket p st))))
        (λ q same. cc (normalize-slabs q, with_bucket-slabs p st (bucket p st ++ (id ∷ [])))))
]

-- Reconciling the buckets changes no count.
pub transition-held :
    (p : ClassPool) (id : ℕ) (previous next : SlabState)
    → Returns (SameHeld p) (reconcile_bucket_transition p id previous next)
unfolding reconcile_bucket_transition
transition-held p id previous next = elim (Bool-cases (same_state previous next)) [
  | inl e ↦ rw e refl
  | inr e ↦ rw e (
      Returns->>= (SameHeld p) (SameHeld p) (remove_from_bucket p id previous) _
        (remove-held p id previous) (λ q same. after-held p q _ same (add-held q id next)))
]

pub state-held :
    (p : ClassPool) (id : ℕ) (previous : SlabState)
    → Returns (SameHeld p) (reconcile_bucket_state p id previous)
unfolding reconcile_bucket_state
state-held p id previous =
    Returns->>= (λ s. get_elem? p.slabs id ≡ some s) (SameHeld p) (get_elem? p.slabs id) _
      (Returns-self (get_elem? p.slabs id)) (λ s found. transition-held p id previous s.state)

module _ (page_size : ℕ) (advise : ℕ → ℕ → Result ℕ Bool) where
  sweep_slab-held :
      (p : ClassPool) (id : ℕ) (s : SlabRecord) (range : ℕ × ℕ)
      → get_elem? p.slabs id ≡ some s
      → Returns (SameHeld p) (sweep_slab advise p id s range)
  unfolding sweep_slab
  sweep_slab-held p id s range found =
      elim (Bool-cases (is_ok_true (advise_free advise range.0 range.1))) [
        | inr e ↦ rw e refl
        | inl e ↦ rw e (
            after-held p (with_slab p id (record s { state = full_cold })) _
              (with_slab-held p id s (record s { state = full_cold }) found refl)
              (transition-held (with_slab p id (record s { state = full_cold })) id s.state
                full_cold))
      ]

  sweep_rounds-held :
      (total rounds : ℕ) (p : ClassPool)
      → Returns (SameHeld p) (sweep_rounds page_size advise total rounds p)
  unfolding sweep_rounds
  sweep_rounds-held total zero p = refl
  sweep_rounds-held total (suc rounds) p =
      let bucket_slot = p.sweep_cursor % total in
      let moved = record p { sweep_cursor = (bucket_slot + 1) % total } in
      let others = sweep_rounds-held total rounds moved in
      Returns->>= (λ id. Unit {0}) (SameHeld p) (get_elem? p.full_hot_slabs bucket_slot) _
        (Returns-any (get_elem? p.full_hot_slabs bucket_slot))
        (λ id h.
          Returns->>= (λ s. get_elem? p.slabs id ≡ some s) (SameHeld p) (get_elem? p.slabs id) _
            (Returns-self (get_elem? p.slabs id))
            (λ s found. elim (Bool-cases (is_sweep_candidate s p.epoch)) [
              | inr e ↦ rw e others
              | inl e ↦
                  rw e
                    (elim (Option-cases (page_aligned_inner_range page_size s.start (span_len s))) [
                      | inl e' ↦ rw e' others
                      | inr (range, e') ↦ rw e' (sweep_slab-held moved id s range found)
                    ])
            ]))

  -- A sweep changes no count.
  pub maybe_sweep-held : (p : ClassPool) → Returns (SameHeld p) (maybe_sweep page_size advise p)
  unfolding maybe_sweep
  maybe_sweep-held p =
      elim (Bool-cases
        (not (is_multiple_of p.epoch sweep_interval) || (length p.full_hot_slabs == 0))) [
          | inl e ↦ rw e refl
          | inr e ↦ rw e (sweep_rounds-held (length p.full_hot_slabs) _ p)
        ]
