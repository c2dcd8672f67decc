-- ===== src/ThreadCache/Tests.antt =====
-- A class cache of src/thread_cache.rs with one slab of three fresh blocks.
use orthotope.Prelude.{
  ℕ, zero, suc, ◌≡◌, refl, ap, sym, ◌∙◌, ◌⊎◌, Option, none, some, [], ◌∷◌, arith, Bool, true, false,
  get_elem?, Result, ok, err,
}
use orthotope.Header.{from_encoded_fields, AllocationKindTag}
use orthotope.Header.Memory.{Memory}
use orthotope.SizeClass.{b64}
use orthotope.FreeList
use orthotope.CentralPool
use orthotope.ThreadCache.LocalSlab.{LocalSlab}
use orthotope.ThreadCache.ClassCache.{LocalClassCache, is_empty, start_of, push_owned_slab}
use orthotope.ThreadCache.Drains.{drain_class}
use orthotope.Prelude.Panics.{◌>>=◌}
use orthotope.Prelude.Search.{binary_search}
use orthotope.ThreadCache.Filling.{push_owned_slab-IsAccounted}
use orthotope.ThreadCache.SlabCounts.{blocks}
use orthotope.ThreadCache.Rounds.{IsAccounted}
use orthotope.ThreadCache.Draining.{Ends, Breaks, drain_class-Ends}

abbrev blank : Memory
blank a = from_encoded_fields AllocationKindTag.small 0 0 0 0

abbrev owned : LocalSlab
owned = record {
  start = 4_096;
  end_addr = 4_480;
  block_size = 128;
  capacity = 3;
  next_fresh = 0;
  free = FreeList.new;
  available_slot = some 0;
}

abbrev class_cache : LocalClassCache
class_cache = record {
  hot_block = none;
  slabs = owned ∷ [];
  slabs_by_start = 0 ∷ [];
  available_slabs = 0 ∷ [];
  recent_slab = some 0;
  shared = FreeList.new;
  shared_len = 0;
  total_len = 3;
}

abbrev no_advice : ℕ → ℕ → Result ℕ Bool
no_advice addr len = ok false

some-injective : {A : Type 0} (x y : A) → ◌≡◌ {A = Option A} (some x) (some y) → x ≡ y
some-injective x y e = cc

class_cache-IsAccounted : IsAccounted class_cache
unfolding FreeList.new
class_cache-IsAccounted = record { total = refl; shared = refl; listed = listed; drained = drained }
  where
    listed :
        (id : ℕ) (s : LocalSlab) (k : ℕ)
        → get_elem? (owned ∷ []) id ≡ some s
        → s.available_slot ≡ some k
        → get_elem? (0 ∷ []) k ≡ some id
    listed zero s k e q =
        let own = ap (λ (x : LocalSlab). x.available_slot) (some-injective owned s e) in
        let first : 0 ≡ k = some-injective 0 k (own ∙ q) in ap (get_elem? (0 ∷ [])) (sym first)
    listed (suc id) s k e q = absurd cc

    drained :
        (id : ℕ) (s : LocalSlab)
        → get_elem? (owned ∷ []) id ≡ some s
        → s.available_slot ≡ none
        → blocks s ≡ 0
    drained zero s e q =
        let own = ap (λ (x : LocalSlab). x.available_slot) (some-injective owned s e) in absurd cc
    drained (suc id) s e q = absurd cc

drain_class-Ends_example :
    Ends 4_096 no_advice b64 3 blank class_cache CentralPool.new
    ⊎ Breaks 4_096 no_advice b64 blank class_cache CentralPool.new
drain_class-Ends_example =
    drain_class-Ends 4_096 no_advice b64 3 blank class_cache CentralPool.new class_cache-IsAccounted
      (omega arith)

-- Whether a run ends with an empty class
abbrev ended : Option (LocalClassCache × CentralPool.CentralPool × Memory) → Bool
ended none = false
ended (some (c, central, m)) = is_empty c

-- With the slab registered, the loop ends: its three blocks go back to the pool in one round.
drain_class_run :
    ended (
      CentralPool.register_slab 4_096 no_advice CentralPool.new b64 4_096 128 3 >>= λ central.
      drain_class 4_096 no_advice 3 blank class_cache b64 central)
    ≡ true
unfolding drain_class CentralPool.register_slab CentralPool.new orthotope.SizeClass.index
    orthotope.CentralPool.Exchange.register_slab orthotope.CentralPool.Sweep.bump_epoch
    orthotope.CentralPool.Pool.new orthotope.Prelude.Search.binary_search
    orthotope.CentralPool.Slab.new is_empty orthotope.ThreadCache.Blocks.pop_batch
    orthotope.ThreadCache.LocalSlab.pop_batch FreeList.new FreeList.pop_batch_unchecked
    FreeList.push_block orthotope.Header.Memory.read_small_free_list_next
    orthotope.Header.Memory.write_small_free_list_next
    orthotope.Header.Memory.initialize_small_to_block_unchecked
    orthotope.ThreadCache.LocalSlab.has_available_blocks FreeList.is_empty
    orthotope.Prelude.Slots.swap_remove CentralPool.return_batch
    orthotope.CentralPool.Inbox.take_pending orthotope.CentralPool.Inbox.new FreeList.batch_is_empty
    FreeList.empty_batch orthotope.CentralPool.Exchange.return_batch
    FreeList.batch_pop_block_unchecked orthotope.CentralPool.Slab.contains
    orthotope.CentralPool.Slab.record_returned_block
drain_class_run = refl

no_slab_there :
    binary_search (start_of class_cache.slabs) 8_192 class_cache.slabs_by_start ≡ some (err 1)
unfolding binary_search
no_slab_there = refl

push_owned_slab-IsAccounted_example :
    (c : LocalClassCache) × (push_owned_slab class_cache 8_192 128 2 ≡ some c)
    × (c.total_len ≡ 5)
    × (c.recent_slab ≡ some 1)
    × ((s : LocalSlab) × (get_elem? c.slabs 1 ≡ some s) × (s.start ≡ 8_192) × (blocks s ≡ 2))
    × IsAccounted c
push_owned_slab-IsAccounted_example =
    push_owned_slab-IsAccounted class_cache 8_192 128 2 1 class_cache-IsAccounted no_slab_there
      (omega arith) (omega arith)
