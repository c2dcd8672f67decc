-- ===== src/LargeObject/Accounting.antt =====
-- The invariant of the large-object state (src/large_object.rs) and what each operation does to it.
use orthotope.Prelude.{
  ℕ, ◌+◌, ◌-◌, ◌≤◌, ◌<◌, ◌≡◌, refl, sym, ◌≢◌, ◌⊎◌, inl, inr, Bool, true, false, not, ◌&&◌, none,
  some, ◌∷◌, ltb, leb, arith, All, sum_by, Bool-cases, eq→==, ne→==, lt→ltb, le→leb,
}
use orthotope.LargeObject.{
  LargeObjectState, LargeAllocationRecord, FreeLargeBlock, lookup, new, take_reusable_block,
  take_best_fit_block, pop_from, insert_record, insert_free_block, record_live_allocation, put_back,
}
use orthotope.LargeObject.Buckets.{contents, Sorted, push_bucket-Sorted, sum_by-push_bucket}
use orthotope.LargeObject.Registry.{DistinctKeys, live_total, lookup-Absent}
use orthotope.LargeObject.Reuse.{Passed, search}

-- The weight of a block that counts blocks, and the one that counts bytes
abbrev pub one : FreeLargeBlock → ℕ
one b = 1

abbrev pub size : FreeLargeBlock → ℕ
size b = b.block_size

-- The keys are distinct, the buckets sorted, and each counter is what it counts.
pub record IsLarge (s : LargeObjectState) : Type 0 where
  pub keys : DistinctKeys s.live
  pub live_bytes : s.live_bytes ≡ live_total s.live
  pub buckets : Sorted 0 s.free
  pub free_blocks : s.free_blocks ≡ sum_by one (contents s.free)
  pub free_bytes : s.free_bytes ≡ sum_by size (contents s.free)

pub new-IsLarge : IsLarge new
unfolding new
new-IsLarge = record {
  keys = tt;
  live_bytes = refl;
  buckets = tt;
  free_blocks = refl;
  free_bytes = refl;
}

pub insert_free_block-IsLarge :
    (s : LargeObjectState) (b : FreeLargeBlock) → IsLarge s → IsLarge (insert_free_block s b)
unfolding insert_free_block
insert_free_block-IsLarge s b is = record {
  keys = is.keys;
  live_bytes = is.live_bytes;
  buckets = push_bucket-Sorted 0 b s.free (omega arith) is.buckets;
  free_blocks = omega (arith, is.free_blocks, sum_by-push_bucket one b s.free);
  free_bytes = omega (arith, is.free_bytes, sum_by-push_bucket size b s.free);
}

-- In a state with the invariant, a reusable block is taken exactly when the pool holds one of at
-- least the minimum, and then it is a smallest such block. It leaves the pool, whatever the pool
-- is weighed by; the live registry stays, and the invariant holds again. Otherwise nothing
-- changes.
pub take_reusable_block-best :
    (s : LargeObjectState) (minimum : ℕ)
    → IsLarge s
    → ((take_reusable_block s minimum ≡ some (none, s))
        × All (λ c. c.block_size < minimum) (contents s.free))
      ⊎ ((b : FreeLargeBlock) × (s' : LargeObjectState) × (take_reusable_block s minimum
            ≡ some (some b, s'))
          × (minimum ≤ b.block_size)
          × All (Passed minimum b.block_size) (contents s.free)
          × ((f : FreeLargeBlock → ℕ)
              → f b + sum_by f (contents s'.free) ≡ sum_by f (contents s.free))
          × (s'.live ≡ s.live)
          × IsLarge s')
unfolding take_reusable_block take_best_fit_block pop_from
take_reusable_block-best s minimum is = elim (search minimum 0 s.free is.buckets) [
  | inl (missing, small) ↦ inl (rw (take_best_fit_block, missing) refl, small)
  | inr (k, b, more, others, t) ↦ inr (
    b,
    record s {
      free = put_back k more others;
      free_blocks = s.free_blocks - 1;
      free_bytes = s.free_bytes - b.block_size;
    },
    rw (take_best_fit_block, t.chosen, t.removed) refl,
    omega (arith, t.fits, t.size),
    rw (t.size) (t.best),
    t.weight,
    refl,
    record {
      keys = is.keys;
      live_bytes = is.live_bytes;
      buckets = t.sorted;
      free_blocks = omega (arith, is.free_blocks, t.weight one);
      free_bytes = omega (arith, is.free_bytes, t.weight size);
    },
  )
]

-- The debug build's test of the two sizes passes.
sizes_pass :
    (debug : Bool) (requested usable : ℕ)
    → 0 < requested
    → requested ≤ usable
    → (debug && not (ltb 0 requested && leb requested usable)) ≡ false
sizes_pass true requested usable pos fits =
    rw (lt→ltb 0 requested pos, le→leb requested usable fits) refl
sizes_pass false requested usable pos fits = refl

-- In a state with the invariant, recording a block under a pointer that is not live, for a
-- request that is not zero and fits the usable size, makes the pointer live with that record, in
-- either build; every other pointer has the record it had, the pool stays, and the invariant
-- holds again.
pub record_live_allocation-fresh :
    (debug : Bool) (s : LargeObjectState) (user block size requested usable : ℕ)
    → IsLarge s
    → lookup user s.live ≡ none
    → 0 < requested
    → requested ≤ usable
    → (s' : LargeObjectState) × (record_live_allocation debug s user block size requested usable
        ≡ some s')
      × (lookup user s'.live
          ≡ some (record {
            block_addr = block;
            block_size = size;
            requested_size = requested;
            usable_size = usable;
          }))
      × ((other : ℕ) → other ≢ user → lookup other s'.live ≡ lookup other s.live)
      × (s'.free ≡ s.free)
      × IsLarge s'
unfolding record_live_allocation insert_record lookup
record_live_allocation-fresh debug s user block size requested usable is missing pos fits =
    let r : LargeAllocationRecord = record {
      block_addr = block;
      block_size = size;
      requested_size = requested;
      usable_size = usable;
    } in
    (
      record s { live = (user, r) ∷ s.live; live_bytes = s.live_bytes + size },
      rw (sizes_pass debug requested usable pos fits) (rw (insert_record, missing) refl),
      rw (eq→== user user refl) refl,
      λ other ne. rw (ne→== user other (λ e. ne (sym e))) refl,
      refl,
      record {
        keys = (lookup-Absent user s.live missing, is.keys);
        live_bytes = omega (arith, is.live_bytes);
        buckets = is.buckets;
        free_blocks = is.free_blocks;
        free_bytes = is.free_bytes;
      },
    )

-- Recording a pointer that is live is a panic, in both builds.
pub record_live_allocation-twice :
    (debug : Bool) (s : LargeObjectState) (user block size requested usable : ℕ)
    (r : LargeAllocationRecord)
    → lookup user s.live ≡ some r
    → record_live_allocation debug s user block size requested usable ≡ none
unfolding record_live_allocation insert_record
record_live_allocation-twice debug s user block size requested usable r live =
    elim (Bool-cases (debug && not (ltb 0 requested && leb requested usable))) [
      | inl e ↦ rw e refl
      | inr e ↦ rw e (rw (insert_record, live) refl)
    ]
