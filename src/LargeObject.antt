-- ===== src/LargeObject.antt =====
-- src/large_object.rs: the registry of live large allocations and the pool of freed large blocks.
-- The hash map is an association list, the ordered map a list of buckets in ascending order of their
-- keys, and the head of a bucket's list is the back of its vector. The mutex makes each function one
-- step. `none` as a whole result is a panic. The counters are plain numbers, which subtraction does
-- not take below 0.
pub mod Buckets
pub mod Registry
pub mod Accounting
pub mod Release
pub mod Runs
pub mod Reuse
pub mod Tests
use orthotope.Prelude.{
  ℕ, ◌+◌, ◌-◌, Bool, true, false, not, ◌&&◌, ◌||◌, Option, none, some, List, [], ◌∷◌, ltb, leb,
  ◌==◌, if◌then◌else◌, Result, ok, err, length,
}
use orthotope.Errors.{FreeError, already_freed_or_unknown_large, corrupt_header}
use orthotope.SizeClass.{header_size}

pub record LargeObjectStats : Type 0 where
  pub live_allocations : ℕ
  pub live_bytes : ℕ
  pub free_blocks : ℕ
  pub free_bytes : ℕ

pub record LargeAllocationRecord : Type 0 where
  pub block_addr : ℕ
  pub block_size : ℕ
  pub requested_size : ℕ
  pub usable_size : ℕ

pub record FreeLargeBlock : Type 0 where
  pub block_addr : ℕ
  pub block_size : ℕ

unfoldable pub usable_size : FreeLargeBlock → ℕ
usable_size b = b.block_size - header_size

-- A null address panics.
unfoldable pub block_start : FreeLargeBlock → Option ℕ
block_start b = if b.block_addr == 0 then none else some b.block_addr

abbrev pub Registry : Type 0
Registry = List (ℕ × LargeAllocationRecord)

abbrev pub Buckets : Type 0
Buckets = List (ℕ × List FreeLargeBlock)

pub record LargeObjectState : Type 0 where
  pub live : Registry
  pub live_bytes : ℕ
  pub free : Buckets
  pub free_blocks : ℕ
  pub free_bytes : ℕ

-- `HashMap::get`, and `remove` of a key
unfoldable pub lookup : ℕ → Registry → Option LargeAllocationRecord
lookup user [] = none
lookup user ((u, r) ∷ rest) = if u == user then some r else lookup user rest

unfoldable pub remove : ℕ → Registry → Registry
remove user [] = []
remove user ((u, r) ∷ rest) = if u == user then rest else (u, r) ∷ remove user rest

-- `entry(block.block_size).or_default().push(block)`
unfoldable pub push_bucket : FreeLargeBlock → Buckets → Buckets
push_bucket b [] = (b.block_size, b ∷ []) ∷ []
push_bucket b ((k, bs) ∷ rest) =
    if b.block_size == k
    then (k, b ∷ bs) ∷ rest
    else if ltb b.block_size k
    then (b.block_size, b ∷ []) ∷ (k, bs) ∷ rest
    else (k, bs) ∷ push_bucket b rest

-- The key of `range(minimum..).next()`
unfoldable pub first_from : ℕ → Buckets → Option ℕ
first_from minimum [] = none
first_from minimum ((k, bs) ∷ rest) = if leb minimum k then some k else first_from minimum rest

-- `BTreeMap::remove`: the value, and what is left
unfoldable pub remove_bucket : ℕ → Buckets → Option (List FreeLargeBlock × Buckets)
remove_bucket key [] = none
remove_bucket key ((k, bs) ∷ rest) = elim (k == key) [
  | true ↦ some (bs, rest)
  | false ↦ elim (remove_bucket key rest) [
    | none ↦ none
    | some (found, others) ↦ some (found, (k, bs) ∷ others)
  ]
]

-- `BTreeMap::insert`
unfoldable pub insert_bucket : ℕ → List FreeLargeBlock → Buckets → Buckets
insert_bucket key blocks [] = (key, blocks) ∷ []
insert_bucket key blocks ((k, bs) ∷ rest) =
    if key == k
    then (k, blocks) ∷ rest
    else if ltb key k
    then (key, blocks) ∷ (k, bs) ∷ rest
    else (k, bs) ∷ insert_bucket key blocks rest

-- `if !blocks.is_empty() { free.insert(bucket_size, blocks) }`
unfoldable pub put_back : ℕ → List FreeLargeBlock → Buckets → Buckets
unfolding insert_bucket
put_back key [] buckets = buckets
put_back key (b ∷ bs) buckets = insert_bucket key (b ∷ bs) buckets

unfoldable pub new : LargeObjectState
new = record { live = []; live_bytes = 0; free = []; free_blocks = 0; free_bytes = 0 }

unfoldable pub insert_free_block : LargeObjectState → FreeLargeBlock → LargeObjectState
unfolding push_bucket
insert_free_block s b = record s {
  free = push_bucket b s.free;
  free_blocks = s.free_blocks + 1;
  free_bytes = s.free_bytes + b.block_size;
}

-- `blocks.pop()` and what follows it.
unfoldable pub pop_from :
    LargeObjectState
    → ℕ
    → List FreeLargeBlock
    → Buckets
    → Option (Option FreeLargeBlock × LargeObjectState)
unfolding put_back
pop_from s key [] others = none
pop_from s key (b ∷ bs) others = some (
  some b,
  record s {
    free = put_back key bs others;
    free_blocks = s.free_blocks - 1;
    free_bytes = s.free_bytes - b.block_size;
  },
)

unfoldable pub take_best_fit_block :
    LargeObjectState → ℕ → Option (Option FreeLargeBlock × LargeObjectState)
unfolding first_from remove_bucket pop_from
take_best_fit_block s minimum = elim (first_from minimum s.free) [
  | none ↦ some (none, s)
  | some key ↦ elim (remove_bucket key s.free) [
    | none ↦ none
    | some (blocks, others) ↦ pop_from s key blocks others
  ]
]

unfoldable pub take_reusable_block :
    LargeObjectState → ℕ → Option (Option FreeLargeBlock × LargeObjectState)
unfolding take_best_fit_block
take_reusable_block s minimum = take_best_fit_block s minimum

unfoldable pub stats : LargeObjectState → LargeObjectStats
stats s = record {
  live_allocations = length s.live;
  live_bytes = s.live_bytes;
  free_blocks = s.free_blocks;
  free_bytes = s.free_bytes;
}

-- The vacant entry is filled; a pointer that is already live panics.
unfoldable pub insert_record :
    LargeObjectState → (user : ℕ) → LargeAllocationRecord → Option LargeObjectState
unfolding lookup
insert_record s user r = elim (lookup user s.live) [
  | some old ↦ none
  | none ↦ some (record s { live = (user, r) ∷ s.live; live_bytes = s.live_bytes + r.block_size })
]

-- A debug build first checks the two sizes.
unfoldable pub record_live_allocation :
    (debug : Bool)
    → LargeObjectState
    → (user block size requested usable : ℕ) → Option LargeObjectState
unfolding insert_record
record_live_allocation debug s user block size requested usable =
    if debug && not (ltb 0 requested && leb requested usable)
    then none
    else insert_record s user (record {
      block_addr = block;
      block_size = size;
      requested_size = requested;
      usable_size = usable;
    })

unfoldable pub validate_and_release_live_allocation :
    LargeObjectState → (user requested usable : ℕ) → Result FreeError (Unit {0}) × LargeObjectState
unfolding lookup remove insert_free_block
validate_and_release_live_allocation s user requested usable = elim (lookup user s.live) [
  | none ↦ (err already_freed_or_unknown_large, s)
  | some r ↦
      if not (r.requested_size == requested) || not (r.usable_size == usable)
      then (err corrupt_header, s)
      else (
        ok tt,
        insert_free_block
            (record s { live = remove user s.live; live_bytes = s.live_bytes - r.block_size })
            (record { block_addr = r.block_addr; block_size = r.block_size }),
      )
]
