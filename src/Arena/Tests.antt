-- ===== src/Arena/Tests.antt =====
-- An arena of 1,000 bytes at address 4,096 (src/arena.rs).
use orthotope.Prelude.{
  ℕ, ◌+◌, ◌-◌, ◌*◌, ◌%◌, ◌≤◌, ◌<◌, ◌≡◌, ◌≢◌, ◌⊎◌, refl, true, false, none, some, List, [], ◌∷◌,
  Result, ok, err, arith, get_elem?,
}
use orthotope.Prelude.Word.{is_power_of_two}
use orthotope.Config.{AllocatorConfig}
use orthotope.Errors.{out_of_memory}
use orthotope.Arena.{
  Arena, ReservedSpan, new, validate_config, reserve_span, allocate_block, contains_block_start,
  remaining, reserve_block_span, plan_span, plan_block_span, align_up, page_aligned_inner_range,
}
use orthotope.Arena.Setup.{IsArena, new-IsArena}
use orthotope.Arena.Reserve.{aligned_from, reserve_span_lem}
use orthotope.Arena.Contains.{contains-allocate_block}
use orthotope.Arena.Blocks.{blocks_from, reserve_block_span_lem}
use orthotope.Arena.Pages.{IsInnerPage, inner_range_exact}
use orthotope.Arena.Concurrent.{
  idle, starting, Event, span, blocks, calls, loads, exchanges, run, init,
}
use orthotope.Arena.Concurrent.Safety.{Apart, run-Apart}
use orthotope.Arena.Concurrent.Linear.{serve, served, alone, run-alone-serve}
use orthotope.Arena.Concurrent.Rounds.{Ends, Steady, rounds}
use orthotope.Arena.Concurrent.Liveness.{rounds-Ends}

abbrev arena : Arena
arena = record { base = 4_096; len = 1_000; next = 10; alignment = 64 }

arena-IsArena : IsArena arena
arena-IsArena = record {
  alignment_pos = omega arith;
  base_pos = omega arith;
  base_aligned = refl;
  space = omega arith;
  cursor = omega arith;
}

-- Two workers race: the first loads, the second takes a span, and the exchange of the first fails;
-- it then takes the next span.
abbrev race : List Event
race =
    calls 0 (span 100)
    ∷ loads 0
    ∷ calls 1 (blocks 64 3)
    ∷ loads 1
    ∷ exchanges 1 false
    ∷ exchanges 0 false
    ∷ loads 0
    ∷ exchanges 0 false
    ∷ []

race_log :
    (run (init arena) race).log
    ≡ record { start = 4_352; size = 100 } ∷ record { start = 4_160; size = 192 } ∷ []
unfolding run init plan_block_span align_up plan_span
race_log = refl

run-Apart_example :
    ((i : ℕ) (t : ReservedSpan)
      → get_elem? (run (init arena) race).log i ≡ some t
      → (t.start % arena.alignment ≡ 0)
        × (0 < t.size)
        × (arena.base + arena.next ≤ t.start)
        × (t.start + t.size ≤ arena.base + arena.len))
    × ((i j : ℕ) (s t : ReservedSpan)
        → get_elem? (run (init arena) race).log i ≡ some s
        → get_elem? (run (init arena) race).log j ≡ some t
        → i ≢ j
        → Apart s t)
run-Apart_example = run-Apart arena race arena-IsArena

run-alone-serve_example :
    ((run (init arena) (alone 0 (blocks 64 3))).arena
      ≡ (served (init arena) (serve arena (blocks 64 3))).0)
    × ((run (init arena) (alone 0 (blocks 64 3))).log
        ≡ (served (init arena) (serve arena (blocks 64 3))).1)
    × ((run (init arena) (alone 0 (blocks 64 3))).workers 0 ≡ idle)
    × ((j : ℕ) → (run (init arena) (alone 0 (blocks 64 3))).workers j ≡ idle)
unfolding init
run-alone-serve_example = run-alone-serve (init arena) 0 (blocks 64 3) refl

alone-run :
    (run (init arena) (alone 0 (blocks 64 3))).log ≡ record { start = 4_160; size = 192 } ∷ []
unfolding run init plan_block_span align_up
alone-run = refl

-- An arena of two bytes with one left, and a schedule in which a second worker takes it
abbrev tiny : Arena
tiny = record { base = 4_096; len = 2; next = 1; alignment = 1 }

tiny-IsArena : IsArena tiny
tiny-IsArena = record {
  alignment_pos = omega arith;
  base_pos = omega arith;
  base_aligned = refl;
  space = omega arith;
  cursor = omega arith;
}

abbrev contest : List Event
contest =
    loads 0
    ∷ calls 1 (blocks 1 1)
    ∷ loads 1
    ∷ exchanges 1 false
    ∷ exchanges 0 false
    ∷ loads 0
    ∷ exchanges 0 false
    ∷ []

contest-Steady : Steady 0 contest
contest-Steady = (λ e. cc, (λ e. cc, (λ e. cc, (λ e. cc, (λ e. cc, (λ e. cc, (λ e. cc, tt)))))))

contest_top : (run (init tiny) (calls 0 (span 1) ∷ [])).workers 0 ≡ starting (span 1)
unfolding run init
contest_top = refl

contest-rounds : rounds 0 (run (init tiny) (calls 0 (span 1) ∷ [])) contest ≡ 2
unfolding run init rounds plan_span plan_block_span align_up
contest-rounds = refl

tiny-remaining : remaining tiny ≡ 1
unfolding remaining
tiny-remaining = refl

rounds-Ends_example : Ends 0 (span 1) (run (init tiny) (calls 0 (span 1) ∷ [])) contest
rounds-Ends_example =
    rounds-Ends tiny (calls 0 (span 1) ∷ []) contest 0 (span 1) tiny-IsArena contest_top
      contest-Steady (omega (arith, contest-rounds, tiny-remaining))

reserve_span_lem_example :
    (aligned_from arena 10 + 100 ≤ 1_000
      → (reserve_span arena 100
          ≡ ok (
            record { start = 4_096 + aligned_from arena 10; size = 100 },
            record arena { next = aligned_from arena 10 + 100 },
          ))
        × IsArena (record arena { next = aligned_from arena 10 + 100 }))
    × (1_000 < aligned_from arena 10 + 100
        → reserve_span arena 100 ≡ err (out_of_memory 100 (1_000 - 10)))
reserve_span_lem_example = reserve_span_lem arena-IsArena 100 (omega arith)

reserve_block_span_lem_example :
    ((blocks_from arena 10 64 3 ≡ 0) × (reserve_block_span arena 64 3 ≡ ok (none, arena)))
    ⊎ ((0 < blocks_from arena 10 64 3)
        × (reserve_block_span arena 64 3
            ≡ ok (
              some (record {
                start = 4_096 + aligned_from arena 10;
                size = blocks_from arena 10 64 3 * 64;
              }),
              record arena { next = aligned_from arena 10 + blocks_from arena 10 64 3 * 64 },
            ))
        × IsArena (record arena { next = aligned_from arena 10 + blocks_from arena 10 64 3 * 64 }))
reserve_block_span_lem_example =
    reserve_block_span_lem arena-IsArena 64 3 (omega arith) (omega arith)

abbrev config : AllocatorConfig
config = record {
  arena_size = 1_024;
  alignment = 64;
  refill_target_bytes = 32;
  local_cache_target_bytes = 64;
}

-- A mapping at an address that is not a multiple of 64
abbrev map_at_4_100 : ℕ → Result ℕ ℕ
map_at_4_100 len = ok 4_100

config_valid : validate_config config ≡ ok tt
unfolding validate_config is_power_of_two
config_valid = refl

new-IsArena_example :
    (a : Arena) × (new map_at_4_100 config ≡ ok a)
    × IsArena a
    × (a.len ≡ 1_024)
    × (a.alignment ≡ 64)
    × (a.next ≡ 0)
    × (4_100 ≤ a.base)
    × (a.base + a.len ≤ 4_100 + (1_024 + (64 - 1)))
new-IsArena_example =
    new-IsArena map_at_4_100 config 4_100 config_valid refl (omega arith) (omega arith)

inner_range_exact_example :
    ((page_aligned_inner_range 4_096 5_000 20_000 ≡ none)
      × ((page : ℕ) → ¬ IsInnerPage 4_096 5_000 20_000 page))
    ⊎ ((addr size : ℕ) × (page_aligned_inner_range 4_096 5_000 20_000 ≡ some (addr, size))
        × (addr % 4_096 ≡ 0)
        × (size % 4_096 ≡ 0)
        × (0 < size)
        × (5_000 ≤ addr)
        × (addr + size ≤ 5_000 + 20_000)
        × ((page : ℕ)
            → IsInnerPage 4_096 5_000 20_000 page
            → (addr ≤ page) × (page + 4_096 ≤ addr + size)))
inner_range_exact_example = inner_range_exact 4_096 5_000 20_000 (omega arith) (omega arith)

allocated :
    allocate_block arena 100
    ≡ ok (4_160, record { base = 4_096; len = 1_000; next = 164; alignment = 64 })
unfolding allocate_block plan_span align_up reserve_span
allocated = refl

contains-allocate_block_example :
    (contains_block_start (record arena { next = 500 }) 4_160 ≡ true)
    × (remaining (record arena { next = 164 }) + 100 ≤ remaining arena)
contains-allocate_block_example =
    contains-allocate_block arena (record arena { next = 164 }) 100 4_160 500 arena-IsArena
      (omega arith) allocated
