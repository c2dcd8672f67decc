-- ===== src/CentralPool/Slab.antt =====
-- `SlabRecord` of src/central_pool.rs: one span of equal blocks, and those of them that are in the
-- pool. The assertions of the debug build are not modelled. `none` is a panic or a broken contract.
use orthotope.Prelude.{
  ℕ, ◌+◌, ◌-◌, Bool, true, false, ◌&&◌, Option, none, some, ltb, leb, ◌==◌, if◌then◌else◌,
}
use orthotope.Prelude.Panics.{◌>>=◌}
use orthotope.Prelude.Word.{checked_add, checked_mul, is_multiple_of}
use orthotope.Header.Memory.{Memory}
use orthotope.FreeList.{FreeList, Batch}
use orthotope.FreeList

abbrev pub cold_epochs : ℕ
cold_epochs = 4

pub data SlabState : Type 0 where
  loaned partial full_hot full_cold : SlabState

pub record SlabRecord : Type 0 where
  pub start : ℕ
  pub end_addr : ℕ
  pub block_size : ℕ
  pub capacity : ℕ
  pub central_free_len : ℕ
  pub partial_free : FreeList
  pub last_touched_epoch : ℕ
  pub state : SlabState
  pub bucket_slot : Option ℕ

-- `start + block_size * capacity`, where an overflow panics
abbrev pub slab_end : ℕ → ℕ → ℕ → Option ℕ
slab_end start block_size capacity = do
  span_len ← checked_mul block_size capacity
  checked_add start span_len

unfoldable pub new : (start block_size capacity epoch : ℕ) → Option SlabRecord
new start block_size capacity epoch = do
  end ← slab_end start block_size capacity
  some (record {
    start = start;
    end_addr = end;
    block_size = block_size;
    capacity = capacity;
    central_free_len = 0;
    partial_free = FreeList.new;
    last_touched_epoch = epoch;
    state = loaned;
    bucket_slot = none;
  })

unfoldable pub reset : SlabRecord → (start block_size capacity epoch : ℕ) → Option SlabRecord
reset s start block_size capacity epoch = do
  end ← slab_end start block_size capacity
  some (record s {
    end_addr = end;
    central_free_len = 0;
    partial_free = FreeList.new;
    last_touched_epoch = epoch;
    state = loaned;
    bucket_slot = none;
  })

unfoldable pub contains : SlabRecord → ℕ → Bool
contains s addr =
    (leb s.start addr && ltb addr s.end_addr) && is_multiple_of (addr - s.start) s.block_size

unfoldable pub span_len : SlabRecord → ℕ
span_len s = s.end_addr - s.start

-- The slab of which one more block is in the pool: the last one makes it full, and the list that
-- held the others is forgotten.
unfoldable pub count_returned : SlabRecord → FreeList → SlabRecord
count_returned s pushed =
    if s.central_free_len + 1 == s.capacity
    then record s {
      central_free_len = s.central_free_len + 1;
      partial_free = FreeList.new;
      state = full_hot;
    }
    else record s {
      central_free_len = s.central_free_len + 1;
      partial_free = pushed;
      state = partial;
    }

unfoldable pub record_returned_block : Memory → SlabRecord → ℕ → SlabRecord × Memory
unfolding count_returned
record_returned_block m s block =
    let (pushed, m') = FreeList.push_block m s.partial_free block in (count_returned s pushed, m')

unfoldable pub take_partial_batch : Memory → SlabRecord → ℕ → Option (Batch × SlabRecord × Memory)
take_partial_batch m s max = do
  (batch, left, m') ← FreeList.pop_batch_unchecked m s.partial_free max
  let len = s.central_free_len - batch.len
  some (
    batch,
    record s {
      central_free_len = len;
      partial_free = left;
      state = if len == 0 then loaned else s.state;
    },
    m',
  )

abbrev pub is_full_hot : SlabState → Bool
is_full_hot full_hot = true
is_full_hot _ = false

unfoldable pub is_sweep_candidate : SlabRecord → ℕ → Bool
is_sweep_candidate s epoch = is_full_hot s.state && leb cold_epochs (epoch - s.last_touched_epoch)
