-- ===== src/FreeList.antt =====
-- src/free_list.rs: the intrusive list of free blocks, linked through the header word that is
-- reserved for it, and the detached chains that move between lists. `none` as the whole result
-- stands for a broken contract: an unchecked unwrap of `None`, or an unchecked pop of an empty
-- container, which a build with debug assertions reports.
pub mod Chain
pub mod Stack
pub mod Batches
pub mod Tests
use orthotope.Prelude.{
  ℕ, zero, suc, ◌+◌, ◌-◌, min, Bool, ◌||◌, Option, none, some, ltb, ◌==◌, if◌then◌else◌, true,
  false,
}
use orthotope.Header.Memory.{Memory, read_small_free_list_next, write_small_free_list_next}

pub record FreeList : Type 0 where
  pub head : Option ℕ
  pub len : ℕ

pub record Batch : Type 0 where
  pub head : Option ℕ
  pub tail : Option ℕ
  pub len : ℕ

abbrev pub is_none {ℓ} : {A : Type ℓ} → Option A → Bool
is_none none = true
is_none (some _) = false

unfoldable pub new : FreeList
new = record { head = none; len = 0 }

unfoldable pub is_empty : FreeList → Bool
is_empty l = is_none l.head

unfoldable pub empty_batch : Batch
empty_batch = record { head = none; tail = none; len = 0 }

unfoldable pub batch_is_empty : Batch → Bool
batch_is_empty b = is_none b.head

unfoldable pub push_block : Memory → FreeList → ℕ → FreeList × Memory
push_block m l block =
    (record { head = some block; len = l.len + 1 }, write_small_free_list_next m block l.head)

unfoldable pub pop_block_unchecked : Memory → FreeList → Option (ℕ × FreeList)
pop_block_unchecked m l = if l.len == 0 then none else elim l.head [
  | none ↦ none
  | some head ↦ some (head, record { head = read_small_free_list_next m head; len = l.len - 1 })
]

unfoldable pub pop_block : Memory → FreeList → Option (Option ℕ × FreeList)
unfolding pop_block_unchecked
pop_block m l =
    if l.len == 0
    then some (none, l)
    else elim (pop_block_unchecked m l) [ none ↦ none | some (block, l') ↦ some (some block, l') ]

unfoldable pub push_batch : Memory → FreeList → Batch → Option (FreeList × Memory)
push_batch m l b = if b.len == 0 then some (l, m) else elim b.head [
  | none ↦ none
  | some head ↦ elim b.tail [
    | none ↦ none
    | some tail ↦
        some (
          record { head = some head; len = l.len + b.len },
          write_small_free_list_next m tail l.head,
        )
  ]
]

-- `for _ in 1..take { tail = next(tail) }`, by the number of rounds.
unfoldable pub walk : Memory → ℕ → ℕ → Option ℕ
walk m zero tail = some tail
walk m (suc rounds) tail = elim (read_small_free_list_next m tail) [
  | none ↦ none
  | some next ↦ walk m rounds next
]

unfoldable pub pop_batch_unchecked : Memory → FreeList → ℕ → Option (Batch × FreeList × Memory)
unfolding walk
pop_batch_unchecked m l max =
    if (max == 0) || (l.len == 0)
    then none
    else let taken = min max l.len in
      elim l.head [
        | none ↦ none
        | some head ↦ elim (walk m (taken - 1) head) [
          | none ↦ none
          | some tail ↦ some (
            record { head = some head; tail = some tail; len = taken },
            record { head = read_small_free_list_next m tail; len = l.len - taken },
            write_small_free_list_next m tail none,
          )
        ]
      ]

unfoldable pub pop_batch : Memory → FreeList → ℕ → Option (Batch × FreeList × Memory)
unfolding pop_batch_unchecked empty_batch
pop_batch m l max =
    if (max == 0) || (l.len == 0) then some (empty_batch, l, m) else pop_batch_unchecked m l max

unfoldable pub batch_pop_block_unchecked : Memory → Batch → Option (ℕ × Batch)
batch_pop_block_unchecked m b = if b.len == 0 then none else elim b.head [
  | none ↦ none
  | some head ↦ some (
    head,
    record {
      head = read_small_free_list_next m head;
      tail = if b.len - 1 == 0 then none else b.tail;
      len = b.len - 1;
    },
  )
]

unfoldable pub from_single : Memory → ℕ → Batch × Memory
from_single m block = (
  record { head = some block; tail = some block; len = 1 },
  write_small_free_list_next m block none,
)
