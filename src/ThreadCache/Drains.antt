-- ===== src/ThreadCache/Drains.antt =====
-- The operations of `ThreadCache` of src/thread_cache.rs that move local blocks from and to the central
-- pool, and its statistics. The loop of `drain_all_to_central` has as many rounds as the class has blocks;
-- `none` is a panic, a broken contract or a loop that has not ended in its rounds.
use orthotope.Prelude.{
  ℕ, zero, suc, ◌*◌, Bool, true, false, Option, none, some, List, [], ◌∷◌, if◌then◌else◌, get_elem?,
  Result, map,
}
use orthotope.Prelude.Panics.{◌>>=◌}
use orthotope.Header.Memory.{Memory}
use orthotope.SizeClass.{SizeClass, index, all}
use orthotope.Config.{AllocatorConfig, class_block_size}
use orthotope.Stats.{SizeClassStats, ThreadCacheStats}
use orthotope.CentralPool.{CentralPool, take_refill, return_batch}
use orthotope.CentralPool.Pool.{CentralRefill, empty, batch, slab}
use orthotope.ThreadCache.ClassCache.{LocalClassCache}
use orthotope.ThreadCache.ClassCache
use orthotope.ThreadCache.Blocks.{push_shared_batch, pop_batch}
use orthotope.ThreadCache.{ThreadCache, Moved, with_class, flush_all_remote_returns}

-- What a class does with a refill, and how many blocks it got
unfoldable pub accept_refill :
    Memory → LocalClassCache → CentralRefill → Option (ℕ × LocalClassCache × Memory)
accept_refill m c empty = some (0, c, m)
accept_refill m c (batch b) = do (c', m') ← push_shared_batch m c b; some (b.len, c', m')
accept_refill m c (slab start block_size capacity) = do
  c' ← ClassCache.push_owned_slab c start block_size capacity
  some (capacity, c', m)

module _ (page_size : ℕ) (advise : ℕ → ℕ → Result ℕ Bool) where
  unfoldable pub refill_from_central : Memory → ThreadCache → SizeClass → CentralPool → Option Moved
  unfolding accept_refill
  refill_from_central m t class central = do
    cfg ← get_elem? t.class_config (index class)
    (refill, central', m') ← take_refill page_size advise m central class cfg.refill_count
    c ← get_elem? t.classes (index class)
    (moved, c', m'') ← accept_refill m' c refill
    some (moved, with_class t (index class) c', central', m'')

  -- The caller has found that `should_drain` holds.
  unfoldable pub drain_excess_to_central :
      Memory → ThreadCache → SizeClass → CentralPool → Option Moved
  drain_excess_to_central m t class central = do
    c ← get_elem? t.classes (index class)
    cfg ← get_elem? t.class_config (index class)
    (taken, c', m') ← pop_batch m c cfg.drain_count class
    (central', m'') ← return_batch page_size advise m' central class taken
    some (taken.len, with_class t (index class) c', central', m'')

  -- The loop of `drain_all_to_central` on one class
  unfoldable pub drain_class :
      (rounds : ℕ)
      → Memory
      → LocalClassCache
      → SizeClass
      → CentralPool
      → Option (LocalClassCache × CentralPool × Memory)
  drain_class zero m c class central = if ClassCache.is_empty c then some (c, central, m) else none
  drain_class (suc rounds) m c class central =
      if ClassCache.is_empty c then some (c, central, m) else do
        (taken, c', m') ← pop_batch m c c.total_len class
        (central', m'') ← return_batch page_size advise m' central class taken
        drain_class rounds m'' c' class central'

  unfoldable pub drain_classes :
      List SizeClass
      → Memory
      → ThreadCache
      → CentralPool
      → Option (ThreadCache × CentralPool × Memory)
  unfolding drain_class
  drain_classes [] m t central = some (t, central, m)
  drain_classes (class ∷ classes) m t central = do
    c ← get_elem? t.classes (index class)
    (c', central', m') ← drain_class c.total_len m c class central
    drain_classes classes m' (with_class t (index class) c') central'

  unfoldable pub drain_all_to_central :
      Memory → ThreadCache → CentralPool → Option (ThreadCache × CentralPool × Memory)
  unfolding drain_classes
  drain_all_to_central m t central = do
    (t', central', m') ← flush_all_remote_returns m t central
    drain_classes all m' t' central'

-- `SizeClassStats` of each class, from its number of blocks
abbrev pub class_stats : AllocatorConfig → List SizeClass → List ℕ → List SizeClassStats
class_stats cfg [] counts = []
class_stats cfg (class ∷ classes) [] = []
class_stats cfg (class ∷ classes) (blocks ∷ counts) =
    record { class = class; blocks = blocks; bytes = blocks * class_block_size cfg class }
    ∷ class_stats cfg classes counts

abbrev is_some {ℓ} : {A : Type ℓ} → Option A → Bool
is_some none = false
is_some (some a) = true

unfoldable pub stats : ThreadCache → ThreadCacheStats
stats t = record {
  is_bound = is_some t.owner;
  local = class_stats t.config all (map (λ c. c.total_len) t.classes);
}
