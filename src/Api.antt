-- ===== src/Api.antt =====
-- src/api.rs and `try_with_thread_cache` of src/lib.rs: the functions that use the allocator of the process
-- and the cache of the calling thread. `Process` is what one call reads and writes. The lazy
-- initialisation has run: its result is part of the state. `none` is a panic or a broken contract.
pub mod Cycle
pub mod Tests
use orthotope.Prelude.{ℕ, Bool, Option, none, some, Result, ok, err}
use orthotope.Prelude.Panics.{◌>>=◌}
use orthotope.Header.Memory.{Memory}
use orthotope.Errors.{InitError, AllocError, global_init_failed, FreeError, free_init_failed}
use orthotope.Stats.{AllocatorStats}
use orthotope.ThreadCache.{ThreadCache}
use orthotope.ThreadCache
use orthotope.Allocator.{Allocator, World}
use orthotope.Allocator
use orthotope.Allocator.Small.{allocate_with_cache}
use orthotope.Allocator.Free.{deallocate_with_cache, deallocate_with_size_checked}
use orthotope.GlobalAlloc.{Attempt}

-- `THREAD_CACHE` of a thread: gone, in use by an outer call, or at hand, perhaps not yet made
pub data ThreadSlot : Type 0 where
  destroyed : ThreadSlot
  borrowed : ThreadSlot
  at_hand : Option ThreadCache → ThreadSlot

pub record Process : Type 0 where
  pub memory : Memory
  pub global_allocator : Result InitError Allocator
  pub thread_cache : ThreadSlot
  pub next_cache_id : ℕ

-- `get_or_insert_with`: the cache, and the next value of the static counter
unfoldable pub get_or_new : Option ThreadCache → (next_cache_id : ℕ) → Allocator → ThreadCache × ℕ
get_or_new none next_cache_id a = ThreadCache.new next_cache_id a.config
get_or_new (some cache) next_cache_id a = (cache, next_cache_id)

unfoldable pub try_with_thread_cache :
    {R : Type 0} → Process → (World → Option (R × World)) → Option (Attempt R × Process)
unfolding get_or_new
try_with_thread_cache p f = elim p.global_allocator [
  | err e ↦ some (err e, p)
  | ok a ↦ elim p.thread_cache [
    | destroyed ↦ some (ok none, p)
    | borrowed ↦ some (ok none, p)
    | at_hand handle ↦ do
      let (cache, next) = get_or_new handle p.next_cache_id a
      (answer, w) ← f (record { memory = p.memory; allocator = a; cache = cache })
      some (
        ok (some answer),
        record {
          memory = w.memory;
          global_allocator = ok w.allocator;
          thread_cache = at_hand (some w.cache);
          next_cache_id = next;
        },
      )
  ]
]

-- `map_err(|_| e)?.ok_or(e)?`
abbrev answer_or : {E A : Type 0} → E → Attempt (Result E A) → Result E A
answer_or e (ok (some answer)) = answer
answer_or e (ok none) = err e
answer_or e (err failed) = err e

unfoldable pub global_stats : Process → Result InitError AllocatorStats
global_stats p = elim p.global_allocator [ err e ↦ err e | ok a ↦ ok (Allocator.stats a) ]

module _ (page_size : ℕ) (advise : ℕ → ℕ → Result ℕ Bool) (debug : Bool) where
  unfoldable pub allocate : Process → (size : ℕ) → Option (Result AllocError ℕ × Process)
  unfolding try_with_thread_cache
  allocate p size = do
    (attempt, p') ← try_with_thread_cache p (λ w. allocate_with_cache page_size advise debug w size)
    some (answer_or global_init_failed attempt, p')

  unfoldable pub deallocate : Process → (ptr : ℕ) → Option (Result FreeError (Unit {0}) × Process)
  unfolding try_with_thread_cache
  deallocate p ptr = do
    (attempt, p') ←
        try_with_thread_cache p (λ w. deallocate_with_cache page_size advise debug w ptr)
    some (answer_or free_init_failed attempt, p')

  unfoldable pub deallocate_with_size :
      Process → (ptr size : ℕ) → Option (Result FreeError (Unit {0}) × Process)
  unfolding try_with_thread_cache
  deallocate_with_size p ptr size = do
    (attempt, p') ←
        try_with_thread_cache p
          (λ w. deallocate_with_size_checked page_size advise debug w ptr size)
    some (answer_or free_init_failed attempt, p')
