-- ===== src/LargeObject/Tests.antt =====
-- The large-object state of src/large_object.rs with one live block and one free one.
use orthotope.Prelude.{
  ℕ, ◌+◌, ◌≤◌, ◌<◌, ◌≡◌, ◌≢◌, ◌⊎◌, refl, false, none, some, [], ◌∷◌, ok, err, All, sum_by, arith,
}
use orthotope.Errors.{already_freed_or_unknown_large, corrupt_header}
use orthotope.LargeObject.{
  LargeObjectState, LargeAllocationRecord, FreeLargeBlock, lookup, take_reusable_block,
  record_live_allocation, validate_and_release_live_allocation,
}
use orthotope.LargeObject.Buckets.{contents}
use orthotope.LargeObject.Reuse.{Passed}
use orthotope.LargeObject.Accounting.{
  IsLarge, take_reusable_block-best, record_live_allocation-twice,
}
use orthotope.LargeObject.Release.{Released, release-cases, release-take}

abbrev freed : FreeLargeBlock
freed = record { block_addr = 8_192; block_size = 128 }

abbrev live : LargeAllocationRecord
live = record { block_addr = 4_096; block_size = 256; requested_size = 100; usable_size = 192 }

abbrev state : LargeObjectState
state = record {
  live = (4_160, live) ∷ [];
  live_bytes = 256;
  free = (128, freed ∷ []) ∷ [];
  free_blocks = 1;
  free_bytes = 128;
}

state-IsLarge : IsLarge state
state-IsLarge = record {
  keys = (tt, tt);
  live_bytes = refl;
  buckets = (omega arith, (λ e. cc), (refl, tt), tt);
  free_blocks = refl;
  free_bytes = refl;
}

state-live : lookup 4_160 state.live ≡ some live
unfolding lookup
state-live = refl

abbrev after : LargeObjectState
after = (validate_and_release_live_allocation state 4_160 100 192).1

take_reusable_block-best_example :
    ((take_reusable_block state 100 ≡ some (none, state))
      × All (λ c. c.block_size < 100) (contents state.free))
    ⊎ ((b : FreeLargeBlock) × (s : LargeObjectState) × (take_reusable_block state 100
          ≡ some (some b, s))
        × (100 ≤ b.block_size)
        × All (Passed 100 b.block_size) (contents state.free)
        × ((f : FreeLargeBlock → ℕ)
            → f b + sum_by f (contents s.free) ≡ sum_by f (contents state.free))
        × (s.live ≡ state.live)
        × IsLarge s)
take_reusable_block-best_example = take_reusable_block-best state 100 state-IsLarge

state-lacks : lookup 9_000 state.live ≡ none
unfolding lookup
state-lacks = refl

record_live_allocation-twice_example :
    record_live_allocation false state 4_160 4_096 256 100 192 ≡ none
record_live_allocation-twice_example =
    record_live_allocation-twice false state 4_160 4_096 256 100 192 live state-live

release-cases_example :
    ((lookup 4_160 state.live ≡ none)
      × (validate_and_release_live_allocation state 4_160 100 192
          ≡ (err already_freed_or_unknown_large, state)))
    ⊎ ((r : LargeAllocationRecord) × (lookup 4_160 state.live ≡ some r)
        × ((((r.requested_size ≢ 100) ⊎ (r.usable_size ≢ 192))
              × (validate_and_release_live_allocation state 4_160 100 192
                  ≡ (err corrupt_header, state)))
            ⊎ ((r.requested_size ≡ 100)
                × (r.usable_size ≡ 192)
                × ((s : LargeObjectState) × (validate_and_release_live_allocation state 4_160 100
                        192
                      ≡ (ok tt, s))
                    × Released 4_160 r state s))))
release-cases_example = release-cases state 4_160 100 192 state-IsLarge

released_after : validate_and_release_live_allocation state 4_160 100 192 ≡ (ok tt, after)
unfolding validate_and_release_live_allocation lookup
released_after = refl

release-take_example :
    (s t : LargeObjectState) × (b : FreeLargeBlock) × (validate_and_release_live_allocation state
        4_160 100 192
      ≡ (ok tt, s))
    × (take_reusable_block s 200 ≡ some (some b, t))
    × (200 ≤ b.block_size)
    × (b.block_size ≤ 256)
release-take_example = release-take state 4_160 live 200 state-IsLarge state-live (omega arith)

-- One block is recorded and released again.
abbrev one_live : LargeObjectState
one_live = record {
  live = (4_160, live) ∷ [];
  live_bytes = 256;
  free = [];
  free_blocks = 0;
  free_bytes = 0;
}
