-- ===== src/FreeList/Tests.antt =====
-- Lists and batches of src/free_list.rs with three blocks.
use orthotope.Prelude.{ℕ, ◌≡◌, ◌≢◌, ◌⊎◌, none, some, List, [], ◌∷◌, arith}
use orthotope.Header.{from_encoded_fields, AllocationKindTag}
use orthotope.Header.Memory.{Memory}
use orthotope.FreeList.{
  FreeList, Batch, new, push_block, pop_block, pop_batch_unchecked, push_batch, from_single,
}
use orthotope.FreeList.Chain.{Fresh}
use orthotope.FreeList.Stack.{IsList, new-IsList, push_block-IsList, pop_block-IsList}
use orthotope.FreeList.Batches.{IsBatch, pop_batch-IsBatch, push-pop_batch}

abbrev blank : Memory
blank a = from_encoded_fields AllocationKindTag.small 0 0 0 0

abbrev one : FreeList × Memory
one = push_block blank new 64

abbrev two : FreeList × Memory
two = push_block one.1 one.0 128

abbrev three : FreeList × Memory
three = push_block two.1 two.0 192

one-IsList : IsList one.1 one.0 (64 ∷ [])
one-IsList = (push_block-IsList blank new [] 64 (new-IsList blank) (omega arith) tt).0

two-IsList : IsList two.1 two.0 (128 ∷ 64 ∷ [])
two-IsList =
    (push_block-IsList one.1 one.0 (64 ∷ []) 128 one-IsList (omega arith) (omega arith, tt)).0

three-IsList : IsList three.1 three.0 (192 ∷ 128 ∷ 64 ∷ [])
three-IsList =
    (push_block-IsList two.1 two.0 (128 ∷ 64 ∷ []) 192 two-IsList (omega arith)
      (omega arith, (omega arith, tt))).0

push_block-IsList_example :
    IsList three.1 three.0 (192 ∷ 128 ∷ 64 ∷ []) × ((a : ℕ) → a ≢ 192 → three.1 a ≡ two.1 a)
push_block-IsList_example =
    push_block-IsList two.1 two.0 (128 ∷ 64 ∷ []) 192 two-IsList (omega arith)
      (omega arith, (omega arith, tt))

abbrev blocks : List ℕ
blocks = 192 ∷ 128 ∷ 64 ∷ []

pop_block-IsList_example :
    ((blocks ≡ []) × (pop_block three.1 three.0 ≡ some (none, three.0)))
    ⊎ ((x : ℕ) × (ys : List ℕ) × (l : FreeList) × (blocks ≡ x ∷ ys)
        × (pop_block three.1 three.0 ≡ some (some x, l))
        × IsList three.1 l ys)
pop_block-IsList_example = pop_block-IsList three.1 three.0 blocks three-IsList

pop_batch-IsBatch_example :
    (b : Batch) × (l : FreeList) × (m : Memory) × (pop_batch_unchecked three.1 three.0 2
      ≡ some (b, l, m))
    × IsBatch m b (192 ∷ 128 ∷ [])
    × IsList m l (64 ∷ [])
    × ((a : ℕ) → Fresh a blocks → m a ≡ three.1 a)
pop_batch-IsBatch_example =
    pop_batch-IsBatch three.1 three.0 192 (128 ∷ 64 ∷ []) 2 three-IsList (omega arith)

push-pop_batch_example :
    (b : Batch) × (l : FreeList) × (m : Memory) × (l' : FreeList) × (m' : Memory)
    × (pop_batch_unchecked three.1 three.0 2 ≡ some (b, l, m))
    × (push_batch m l b ≡ some (l', m'))
    × IsList m' l' blocks
push-pop_batch_example =
    push-pop_batch three.1 three.0 192 (128 ∷ 64 ∷ []) 2 three-IsList (omega arith)

-- The batch of one block
abbrev single : Batch × Memory
single = from_single blank 192
