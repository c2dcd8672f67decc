-- ===== src/CentralPool/Tests.antt =====
-- A class pool of src/central_pool.rs with one slab of three blocks.
use orthotope.Prelude.{
  ℕ, zero, suc, ◌+◌, ◌≤◌, ◌<◌, ◌≡◌, ◌≢◌, refl, Bool, true, false, none, some, [], ◌∷◌, get_elem?,
  Result, ok, arith,
}
use orthotope.Header.{from_encoded_fields, AllocationKindTag}
use orthotope.Prelude.Slots.{swap_remove}
use orthotope.Prelude.Search.{partition_point}
use orthotope.Header.Memory.{Memory, read_small_free_list_next, write_small_free_list_next}
use orthotope.FreeList.{Batch, from_single, batch_pop_block_unchecked}
use orthotope.FreeList
use orthotope.FreeList.Chain.{Fresh}
use orthotope.FreeList.Stack.{new-IsList}
use orthotope.FreeList.Batches.{IsBatch, from_single-IsBatch}
use orthotope.CentralPool.Inbox.{RemoteReturnInbox, take_pending}
use orthotope.CentralPool.Inbox
use orthotope.CentralPool.Returns.{IsInbox, take_pending-push_batch}
use orthotope.CentralPool.Slab.{
  SlabRecord, loaned, partial, record_returned_block, take_partial_batch, contains,
}
use orthotope.CentralPool.SlabStates.{
  IsOpen, IsFullHot, record_returned_block-IsOpen, take_partial_batch-IsOpen,
}
use orthotope.CentralPool.Pool.{ClassPool, CentralRefill, batch}
use orthotope.CentralPool.Pool
use orthotope.CentralPool.Exchange.{
  return_batch, take_refill, find_slab_id_unchecked, central_block_count,
}
use orthotope.CentralPool.Sweep.{bump_epoch}
use orthotope.CentralPool.RefillCount.{IsCounted, take_refill-count}
use orthotope.CentralPool.ReturnCount.{return_batch-count}
use orthotope.CentralPool.Lookup.{find_slab_id-contains}

abbrev blank : Memory
blank a = from_encoded_fields AllocationKindTag.small 0 0 0 0

-- Three blocks of 128 bytes from address 4,096, all of them loaned
abbrev lent : SlabRecord
lent = record {
  start = 4_096;
  end_addr = 4_480;
  block_size = 128;
  capacity = 3;
  central_free_len = 0;
  partial_free = FreeList.new;
  last_touched_epoch = 1;
  state = loaned;
  bucket_slot = none;
}

abbrev pool : ClassPool
pool = record Pool.new { slabs = lent ∷ []; slabs_by_start = 0 ∷ []; epoch = 1 }

abbrev no_advice : ℕ → ℕ → Result ℕ Bool
no_advice addr len = ok false

-- The second block, as a batch
abbrev single : Batch × Memory
single = from_single blank 4_224

lent-IsOpen : IsOpen blank lent []
lent-IsOpen = record { blocks = new-IsList blank; count = refl; room = omega arith; state = refl }

abbrev back : SlabRecord × Memory
back = record_returned_block blank lent 4_224

record_returned_block-IsOpen_example :
    (0 + 1 < 3 → IsOpen back.1 back.0 (4_224 ∷ []))
    × (0 + 1 ≡ 3 → IsFullHot back.1 back.0)
    × ((a : ℕ) → a ≢ 4_224 → back.1 a ≡ blank a)
record_returned_block-IsOpen_example =
    record_returned_block-IsOpen blank lent 4_224 [] lent-IsOpen (omega arith) tt

back-IsOpen : IsOpen back.1 back.0 (4_224 ∷ [])
back-IsOpen = record_returned_block-IsOpen_example.0 (omega arith)

take_partial_batch-IsOpen_example :
    (b : Batch) × (s : SlabRecord) × (m : Memory) × (take_partial_batch back.1 back.0 8
      ≡ some (b, s, m))
    × IsBatch m b (4_224 ∷ [])
    × IsOpen m s []
    × ((a : ℕ) → Fresh a (4_224 ∷ []) → m a ≡ back.1 a)
take_partial_batch-IsOpen_example =
    take_partial_batch-IsOpen back.1 back.0 4_224 [] 8 back-IsOpen (omega arith)

take_pending-push_batch_example :
    (inbox inbox' : RemoteReturnInbox) × (all : Batch) × (m m' : Memory) × (Inbox.push_batch
        single.1 Inbox.new single.0
      ≡ some (inbox, m))
    × IsInbox m inbox (4_224 ∷ [])
    × (take_pending m inbox ≡ some (all, inbox', m'))
    × IsBatch m' all (4_224 ∷ [])
    × IsInbox m' inbox' []
unfolding Inbox.new FreeList.new
take_pending-push_batch_example =
    take_pending-push_batch single.1 Inbox.new single.0 4_224 [] []
      (record { pending = new-IsList single.1; count = refl })
      (from_single-IsBatch blank 4_224 (omega arith)) (tt, tt)

inside : contains lent 4_224 ≡ true
unfolding contains
inside = refl

pool_recent :
    (id : ℕ) → pool.recent_slab ≡ some id → (t : SlabRecord) × (get_elem? pool.slabs id ≡ some t)
unfolding Pool.new
pool_recent id e = absurd (cc)

find_slab_id-contains_example :
    (id : ℕ) × (p : ClassPool) × (t : SlabRecord) × (find_slab_id_unchecked pool 4_224
      ≡ some (id, p))
    × (p.slabs ≡ pool.slabs)
    × (get_elem? pool.slabs id ≡ some t)
    × (contains t 4_224 ≡ true)
find_slab_id-contains_example =
    find_slab_id-contains pool 4_224 0 0 lent (lent, refl, omega arith, omega arith, tt) pool_recent
      refl refl inside

-- The pool after the return: the slab is partial and in its bucket.
abbrev pool_after : ClassPool
pool_after = record pool {
  slabs =
      record lent {
        central_free_len = 1;
        partial_free = record { head = some 4_224; len = 1 };
        last_touched_epoch = 2;
        state = partial;
        bucket_slot = some 0;
      }
      ∷ [];
  partial_slabs = 0 ∷ [];
  epoch = 2;
  recent_slab = some 0;
}

returned :
    return_batch 4_096 no_advice single.1 pool single.0
    ≡ some (pool_after, (FreeList.push_block single.1 FreeList.new 4_224).1)
unfolding return_batch from_single bump_epoch batch_pop_block_unchecked Pool.new
    record_returned_block FreeList.push_block FreeList.new partition_point
returned = refl

return_batch-count_example : central_block_count pool_after ≡ 1 + central_block_count pool
unfolding central_block_count from_single
return_batch-count_example =
    return_batch-count 4_096 no_advice single.1 (FreeList.push_block single.1 FreeList.new 4_224).1
      pool pool_after single.0 returned

abbrev memory_after : Memory
memory_after = (FreeList.push_block single.1 FreeList.new 4_224).1

abbrev pool_refilled : ClassPool
pool_refilled = record pool {
  slabs = record lent { last_touched_epoch = 3 } ∷ [];
  epoch = 3;
  recent_slab = some 0;
}

refilled :
    take_refill 4_096 no_advice memory_after pool_after 8
    ≡ some (
      batch (record { head = some 4_224; tail = some 4_224; len = 1 }),
      pool_refilled,
      write_small_free_list_next memory_after 4_224 none,
    )
unfolding take_refill bump_epoch take_partial_batch FreeList.pop_batch_unchecked Pool.new
    FreeList.new read_small_free_list_next FreeList.push_block write_small_free_list_next
    swap_remove
refilled = refl

pool_after-IsCounted : IsCounted pool_after
unfolding Pool.new
pool_after-IsCounted = record {
  listed = listed;
  hot = λ k id s e. absurd (cc);
  cold = λ k id s e. absurd (cc);
}
  where
    listed :
        (id : ℕ) (s : SlabRecord)
        → get_elem? pool_after.slabs id ≡ some s
        → s.partial_free.len ≤ s.central_free_len
    listed zero s e = ground arith
    listed (suc id) s e = cc

take_refill-count_example : central_block_count pool_refilled + 1 ≡ central_block_count pool_after
take_refill-count_example =
    take_refill-count 4_096 no_advice memory_after
      (write_small_free_list_next memory_after 4_224 none) pool_after pool_refilled 8
      (batch (record { head = some 4_224; tail = some 4_224; len = 1 })) pool_after-IsCounted
      refilled
