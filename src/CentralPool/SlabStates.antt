-- ===== src/CentralPool/SlabStates.antt =====
-- The states of a slab of src/central_pool.rs: which blocks it holds in each, and how they change.
use orthotope.Prelude.{
  ℕ, suc, ◌+◌, ◌-◌, ◌<◌, ◌≡◌, refl, ◌≢◌, some, List, [], ◌∷◌, ◌==◌, if◌then◌else◌, arith, length,
  take, drop, length-take, length-drop, ne→==, eq→==,
}
use orthotope.Header.Memory.{Memory}
use orthotope.FreeList.{Batch}
use orthotope.FreeList.Chain.{Fresh}
use orthotope.FreeList.Stack.{IsList, new-IsList, push_block-IsList}
use orthotope.FreeList.Batches.{IsBatch, pop_batch-IsBatch}
use orthotope.CentralPool.Slab.{
  SlabRecord, loaned, partial, full_hot, record_returned_block, take_partial_batch, count_returned,
}

-- A slab that is not full holds exactly the blocks `xs`, fewer than its capacity; it is loaned when
-- there is none and partial otherwise.
pub record IsOpen (m : Memory) (s : SlabRecord) (xs : List ℕ) : Type 0 where
  pub blocks : IsList m s.partial_free xs
  pub count : s.central_free_len ≡ length xs
  pub room : length xs < s.capacity
  pub state : s.state ≡ (if length xs == 0 then loaned else partial)

-- A slab all of whose blocks are back: it keeps no list of them.
pub record IsFullHot (m : Memory) (s : SlabRecord) : Type 0 where
  pub blocks : IsList m s.partial_free []
  pub count : s.central_free_len ≡ s.capacity
  pub state : s.state ≡ full_hot

-- A block that is not null, not yet there and comes back to a slab with room goes in front of the
-- others there. The slab is then partial, unless this was its last missing block: then it is full
-- and forgets the list. Only the header of the block is written.
pub record_returned_block-IsOpen :
    (m : Memory) (s : SlabRecord) (block : ℕ) (xs : List ℕ)
    → IsOpen m s xs
    → block ≢ 0
    → Fresh block xs
    → (length xs + 1 < s.capacity
        → IsOpen
            (record_returned_block m s block).1
            (record_returned_block m s block).0
            (block ∷ xs))
      × (length xs + 1 ≡ s.capacity
          → IsFullHot (record_returned_block m s block).1 (record_returned_block m s block).0)
      × ((a : ℕ) → a ≢ block → (record_returned_block m s block).1 a ≡ m a)
unfolding record_returned_block count_returned
record_returned_block-IsOpen m s block xs is ne fresh =
    let (pushed, frame) = push_block-IsList m s.partial_free xs block is.blocks ne fresh in
    (
      (λ h. rw (ne→== (s.central_free_len + 1) s.capacity (omega (arith, is.count))) (record {
        blocks = pushed;
        count = omega (arith, is.count);
        room = omega arith;
        state = rw (ne→== (suc (length xs)) 0 (omega arith)) refl;
      })),
      (λ h.
          rw (eq→== (s.central_free_len + 1) s.capacity (omega (arith, is.count)))
            (record { blocks = new-IsList _; count = omega (arith, is.count); state = refl })),
      frame,
    )

-- A partial slab gives up to `max` of its blocks, where `max` is not zero, from the front as one
-- batch and keeps the rest; when none is left it is loaned. No header of a block outside the
-- slab's list is written.
pub take_partial_batch-IsOpen :
    (m : Memory) (s : SlabRecord) (x : ℕ) (xs : List ℕ) (max : ℕ)
    → IsOpen m s (x ∷ xs)
    → 0 < max
    → (b : Batch) × (s' : SlabRecord) × (m' : Memory) × (take_partial_batch m s max
        ≡ some (b, s', m'))
      × IsBatch m' b (take max (x ∷ xs))
      × IsOpen m' s' (drop max (x ∷ xs))
      × ((a : ℕ) → Fresh a (x ∷ xs) → m' a ≡ m a)
unfolding take_partial_batch
take_partial_batch-IsOpen m s x xs max is pos =
    let (b, l, m', popped, front, back, frame) =
      pop_batch-IsBatch m s.partial_free x xs max is.blocks pos in
    let left : s.central_free_len - b.len ≡ length (drop max (x ∷ xs)) =
      omega (arith, is.count, front.count, length-take max (x ∷ xs), length-drop max (x ∷ xs)) in
    (
      b,
      record s {
        central_free_len = s.central_free_len - b.len;
        partial_free = l;
        state = if s.central_free_len - b.len == 0 then loaned else s.state;
      },
      m',
      rw popped refl,
      front,
      record {
        blocks = back;
        count = left;
        room = omega (arith, is.room, length-drop max (x ∷ xs));
        state = rw (left, is.state, ne→== (suc (length xs)) 0 (omega arith)) refl;
      },
      frame,
    )
