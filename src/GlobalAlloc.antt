-- ===== src/GlobalAlloc.antt =====
-- src/global_alloc.rs: the allocator behind the `GlobalAlloc` trait. The system's allocator is a parameter,
-- which gives an address or 0; what `try_with_thread_cache` came to is an argument. The prefix before a
-- fallback block is kept in a memory of prefixes, by its address. An abort of the process is a value.
pub mod Fallback
pub mod Tests
use orthotope.Prelude.{
  ℕ, ◌+◌, ◌-◌, ◌%◌, ◌^◌, Bool, not, ◌&&◌, ◌||◌, Option, none, some, ltb, leb, ◌==◌, if◌then◌else◌,
  Result, ok, err,
}
use orthotope.Prelude.Panics.{◌>>=◌}
use orthotope.Prelude.Word.{checked_add, checked_sub, wrapping_sub, is_power_of_two}
use orthotope.Header.{header_alignment}
use orthotope.Errors.{InitError, AllocError, FreeError, free_init_failed}

-- `core::alloc::Layout`
pub record Layout : Type 0 where
  pub size : ℕ
  pub align : ℕ

-- `Layout::from_size_align(..).ok()`: a power of two, and a size that still fits `isize` when rounded up
unfoldable pub from_size_align : (size align : ℕ) → Option Layout
from_size_align size align =
    if is_power_of_two align && leb size (2 ^ 63 - align)
    then some (record { size = size; align = align })
    else none

-- `own` is the source's `Orthotope`.
pub data Backend : Type 0 where
  own : Backend
  system : Backend

abbrev pub fallback_empty : ℕ
fallback_empty = 0

abbrev pub fallback_magic : ℕ
fallback_magic = 0x4f52_5448_4653_5953

pub record SystemFallbackPrefix : Type 0 where
  pub magic : ℕ
  pub raw_addr : ℕ
  pub user_addr : ℕ

-- `size_of` and `align_of` of the prefix, three words
abbrev pub prefix_size : ℕ
prefix_size = 24

abbrev pub prefix_alignment : ℕ
prefix_alignment = 8

unfoldable pub select_backend : Layout → Backend
select_backend l = if (l.size == 0) || ltb header_alignment l.align then system else own

unfoldable pub fallback_alignment : Layout → ℕ
fallback_alignment l = if ltb prefix_alignment l.align then l.align else prefix_alignment

unfoldable pub try_fallback_layout : Layout → Option Layout
unfolding fallback_alignment from_size_align
try_fallback_layout l = do
  let alignment = fallback_alignment l
  with_prefix ← checked_add l.size prefix_size
  size ← checked_add with_prefix (alignment - 1)
  from_size_align size alignment

unfoldable pub align_up : ℕ → ℕ → Option ℕ
align_up value alignment =
    let remainder = value % alignment in
    if remainder == 0 then some value else checked_add value (alignment - remainder)

abbrev pub Prefixes : Type 0
Prefixes = ℕ → SystemFallbackPrefix

abbrev pub write_prefix : Prefixes → ℕ → SystemFallbackPrefix → Prefixes
write_prefix p at prefix a = if a == at then prefix else p a

-- The block that was obtained is given back when its address cannot be aligned; then the third
-- component names it.
unfoldable pub fallback_alloc :
    (system_alloc : Layout → ℕ) → Prefixes → Layout → ℕ × Prefixes × Option (ℕ × Layout)
unfolding try_fallback_layout align_up
fallback_alloc system_alloc p l = elim (try_fallback_layout l) [
  | none ↦ (0, p, none)
  | some raw_layout ↦
      let raw = system_alloc raw_layout in
      if raw == 0
      then (raw, p, none)
      else elim (align_up (raw + prefix_size) (fallback_alignment l)) [
        | none ↦ (0, p, some (raw, raw_layout))
        | some user ↦ (
          user,
          write_prefix p (wrapping_sub user prefix_size)
              (record { magic = fallback_magic; raw_addr = raw; user_addr = user }),
          none,
        )
      ]
]

unfoldable pub fallback_raw_ptr : Prefixes → (ptr : ℕ) → Option ℕ
fallback_raw_ptr p ptr = do
  prefix_addr ← checked_sub ptr prefix_size
  if prefix_addr == fallback_empty
      then none
      else if not ((p prefix_addr).magic == fallback_magic)
          || not ((p prefix_addr).user_addr == ptr)
      then none
      else some (p prefix_addr).raw_addr

-- What `try_with_thread_cache` came to: no allocator, a cache that is in use, or the answer
abbrev pub Attempt : Type 0 → Type 0
Attempt A = Result InitError (Option A)

unfoldable pub collapse_dealloc_result :
    (panicking : Bool) → Attempt (Result FreeError (Unit {0})) → Result FreeError (Unit {0})
collapse_dealloc_result panicking (ok (some answer)) = answer
collapse_dealloc_result panicking (ok none) = if panicking then ok tt else err free_init_failed
collapse_dealloc_result panicking (err e) = err free_init_failed

unfoldable pub alloc :
    (system_alloc : Layout → ℕ)
    → Prefixes
    → Layout
    → Attempt (Result AllocError ℕ)
    → ℕ × Prefixes × Option (ℕ × Layout)
unfolding select_backend fallback_alloc
alloc system_alloc p l attempt = elim (select_backend l) [
  | system ↦ (system_alloc l, p, none)
  | own ↦ elim attempt [
    | err e ↦ (0, p, none)
    | ok answer ↦ elim answer [
      | none ↦ fallback_alloc system_alloc p l
      | some r ↦ elim r [ err e ↦ (0, p, none) | ok ptr ↦ (ptr, p, none) ]
    ]
  ]
]

-- What a call of `dealloc` ends in
pub data Released : Type 0 where
  to_system : (ptr : ℕ) → Layout → Released
  to_orthotope : Released
  ignored : Released
  abort : Released

-- `attempt` is what the free of the pointer with the layout's size came to, if it was made.
unfoldable pub dealloc :
    (panicking : Bool)
    → Prefixes
    → (ptr : ℕ) → Layout
    → Attempt (Result FreeError (Unit {0}))
    → Released
unfolding select_backend fallback_raw_ptr try_fallback_layout collapse_dealloc_result
dealloc panicking p ptr l attempt = elim (select_backend l) [
  | system ↦ to_system ptr l
  | own ↦ if ptr == 0 then ignored else elim (fallback_raw_ptr p ptr) [
    | some raw ↦ elim (try_fallback_layout l) [
      | none ↦ abort
      | some raw_layout ↦ to_system raw raw_layout
    ]
    | none ↦ elim (collapse_dealloc_result panicking attempt) [
      | err e ↦ abort
      | ok done ↦ to_orthotope
    ]
  ]
]
