-- ===== src/ThreadCache.antt =====
-- src/thread_cache.rs: the cache of one thread. ThreadCache/LocalSlab.antt has `LocalSlab`,
-- ThreadCache/ClassCache.antt and ThreadCache/Blocks.antt have `LocalClassCache`, and
-- ThreadCache/RemoteReturns.antt has `RemoteReturnCache`. `none` is a panic or a broken contract. `debug`
-- says whether debug assertions are on, which `contains` of a slab depends on.
pub mod LocalSlab
pub mod ClassCache
pub mod Blocks
pub mod RemoteReturns
pub mod Drains
pub mod Headers
pub mod Counts
pub mod SlabCounts
pub mod Listing
pub mod Accounts
pub mod Rounds
pub mod Filling
pub mod Draining
pub mod Tests
use orthotope.Prelude.{
  ℕ, zero, suc, ◌+◌, ◌*◌, ◌%◌, Bool, true, false, ◌&&◌, Option, none, some, List, [], ◌∷◌, ltb, leb,
  ◌==◌, if◌then◌else◌, get_elem?, set_elem, Result, map,
}
use orthotope.Prelude.Panics.{◌>>=◌}
use orthotope.Prelude.Word.{u32_limit}
use orthotope.Header.Memory.{Memory}
use orthotope.SizeClass.{SizeClass, num_classes, index, all}
use orthotope.Config.{AllocatorConfig, class_block_size, refill_count, local_limit, drain_count}
use orthotope.Stats.{SizeClassStats, ThreadCacheStats}
use orthotope.FreeList.{Batch}
use orthotope.CentralPool.{CentralPool, repeat, publish_remote_batch, take_refill, return_batch}
use orthotope.CentralPool.Pool.{CentralRefill, empty, batch, slab}
use orthotope.ThreadCache.LocalSlab.{BlockReuse}
use orthotope.ThreadCache.ClassCache.{LocalClassCache}
use orthotope.ThreadCache.ClassCache
use orthotope.ThreadCache.Blocks.{push_shared_batch, pop_batch, pop_block_unchecked, push_block}
use orthotope.ThreadCache.RemoteReturns.{RemoteReturnCache, take_all_unchecked}
use orthotope.ThreadCache.RemoteReturns

pub record ClassCacheConfig : Type 0 where
  pub refill_count : ℕ
  pub local_limit : ℕ
  pub drain_count : ℕ

pub record ThreadCache : Type 0 where
  pub config : AllocatorConfig
  pub class_config : List ClassCacheConfig
  pub owner : Option ℕ
  pub cache_id : ℕ
  pub classes : List LocalClassCache
  pub remote_returns : List RemoteReturnCache

unfoldable pub class_config_table : AllocatorConfig → List ClassCacheConfig
class_config_table cfg =
    map
      (λ c. record {
        refill_count = refill_count cfg c;
        local_limit = local_limit cfg c;
        drain_count = drain_count cfg c;
      })
      all

-- `next_cache_id` is the static counter, of 32 bits; its next value comes back too.
unfoldable pub new : (next_cache_id : ℕ) → AllocatorConfig → ThreadCache × ℕ
unfolding class_config_table
new next_cache_id cfg = (
  record {
    config = cfg;
    class_config = class_config_table cfg;
    owner = none;
    cache_id = next_cache_id;
    classes = repeat num_classes ClassCache.new;
    remote_returns = repeat num_classes RemoteReturns.new;
  },
  (next_cache_id + 1) % u32_limit,
)

-- `iter().all(f)`
abbrev pub all_of {ℓ} : {A : Type ℓ} → (A → Bool) → List A → Bool
all_of f [] = true
all_of f (x ∷ xs) = f x && all_of f xs

unfoldable pub is_empty : ThreadCache → Bool
is_empty t = all_of ClassCache.is_empty t.classes && all_of RemoteReturns.is_empty t.remote_returns

unfoldable pub reset_for_rebind : ThreadCache → ThreadCache
reset_for_rebind t = record t {
  classes = repeat num_classes ClassCache.new;
  remote_returns = repeat num_classes RemoteReturns.new;
}

abbrev pub is_owner : Option ℕ → ℕ → Bool
is_owner none id = false
is_owner (some owner) id = owner == id

-- `allocator_id` and `cfg` are those of the allocator; a cache with blocks of another one panics.
unfoldable pub bind_to_allocator :
    ThreadCache → (allocator_id : ℕ) → AllocatorConfig → Option ThreadCache
unfolding is_empty reset_for_rebind class_config_table
bind_to_allocator t allocator_id cfg =
    if is_owner t.owner allocator_id
    then some t
    else if is_empty t
    then some (record (reset_for_rebind t) {
      config = cfg;
      class_config = class_config_table cfg;
      owner = some allocator_id;
    })
    else none

-- `self.classes[i] = c` and `self.remote_returns[i] = r`
abbrev pub with_class : ThreadCache → ℕ → LocalClassCache → ThreadCache
with_class t i c = record t { classes = set_elem t.classes i c }

abbrev pub with_returns : ThreadCache → ℕ → RemoteReturnCache → ThreadCache
with_returns t i r = record t { remote_returns = set_elem t.remote_returns i r }

unfoldable pub pop_available_unchecked :
    Memory → ThreadCache → SizeClass → Option (ℕ × BlockReuse × ThreadCache)
pop_available_unchecked m t class = do
  c ← get_elem? t.classes (index class)
  (block, reuse, c') ← pop_block_unchecked m c
  some (block, reuse, with_class t (index class) c')

unfoldable pub push :
    (debug : Bool) → Memory → ThreadCache → SizeClass → ℕ → Option (ThreadCache × Memory)
push debug m t class block = do
  c ← get_elem? t.classes (index class)
  (c', m') ← push_block debug m c block
  some (with_class t (index class) c', m')

unfoldable pub should_drain : ThreadCache → SizeClass → Option Bool
should_drain t class = do
  c ← get_elem? t.classes (index class)
  cfg ← get_elem? t.class_config (index class)
  some (ltb cfg.local_limit c.total_len)

unfoldable pub push_and_should_drain :
    (debug : Bool) → Memory → ThreadCache → SizeClass → ℕ → Option (Bool × ThreadCache × Memory)
unfolding push should_drain
push_and_should_drain debug m t class block = do
  (t', m') ← push debug m t class block
  drains ← should_drain t' class
  some (drains, t', m')

unfoldable pub push_remote_return :
    Memory → ThreadCache → SizeClass → ℕ → Option (ThreadCache × Memory)
push_remote_return m t class block = do
  r ← get_elem? t.remote_returns (index class)
  let (r', m') = RemoteReturns.push_block m r block
  some (with_returns t (index class) r', m')

unfoldable pub should_flush_remote_returns : ThreadCache → SizeClass → Option Bool
should_flush_remote_returns t class = do
  r ← get_elem? t.remote_returns (index class)
  cfg ← get_elem? t.class_config (index class)
  some (leb cfg.drain_count r.pending_len)

unfoldable pub needs_refill : ThreadCache → SizeClass → Option Bool
needs_refill t class = do c ← get_elem? t.classes (index class); some (ClassCache.is_empty c)

unfoldable pub push_owned_slab :
    ThreadCache → SizeClass → (start block_size capacity : ℕ) → Option ThreadCache
push_owned_slab t class start block_size capacity = do
  c ← get_elem? t.classes (index class)
  c' ← ClassCache.push_owned_slab c start block_size capacity
  some (with_class t (index class) c')

-- The blocks that are moved, and the cache, the pool and the memory after it
abbrev pub Moved : Type 0
Moved = ℕ × ThreadCache × CentralPool × Memory

unfoldable pub flush_remote_returns_for_class :
    Memory → ThreadCache → SizeClass → CentralPool → Option Moved
flush_remote_returns_for_class m t class central = do
  r ← get_elem? t.remote_returns (index class)
  if RemoteReturns.is_empty r then some (0, t, central, m) else do
    (taken, r', m') ← take_all_unchecked m r
    (central', m'') ← publish_remote_batch m' central class taken
    some (taken.len, with_returns t (index class) r', central', m'')

unfoldable pub flush_classes :
    List SizeClass
    → Memory
    → ThreadCache
    → CentralPool
    → Option (ThreadCache × CentralPool × Memory)
unfolding flush_remote_returns_for_class
flush_classes [] m t central = some (t, central, m)
flush_classes (class ∷ classes) m t central = do
  (moved, t', central', m') ← flush_remote_returns_for_class m t class central
  flush_classes classes m' t' central'

unfoldable pub flush_all_remote_returns :
    Memory → ThreadCache → CentralPool → Option (ThreadCache × CentralPool × Memory)
unfolding flush_classes
flush_all_remote_returns m t central = flush_classes all m t central
