-- ===== src/Header.antt =====
-- src/header.rs: the 64-byte allocation header, its encoding and validation, and the conversions
-- between block and user pointers. Addresses are numbers; a header is the record of its fields.
pub mod Memory
pub mod Valid
pub mod Roundtrip
pub mod Marker
pub mod Tests
use Prim.Native.Nat.{bit_xor}
use orthotope.Prelude.{
  ℕ, ◌+◌, ◌-◌, ◌*◌, ◌/◌, ◌%◌, ◌^◌, Bool, not, ◌||◌, Option, none, some, ltb, ◌==◌, if◌then◌else◌,
  Result, ok, err, ok_or,
}
use orthotope.Prelude.Word.{u32_limit, usize_limit, u32_try_from, wrapping_add, wrapping_sub}
use orthotope.Errors.{FreeError, corrupt_header}
use orthotope.SizeClass.{
  SizeClass, header_size, payload_size, index, b64, b256, b4k, b6k, b8k, b16k, b32k, b64k, b128k,
  b256k, b1m, b16m,
}

abbrev pub header_alignment : ℕ
header_alignment = 64

abbrev pub header_magic : ℕ
header_magic = 0x4f52_5448

abbrev pub large_class_sentinel : ℕ
large_class_sentinel = 255

pub data AllocationKind : Type 0 where
  small : SizeClass → AllocationKind
  large : AllocationKind

-- The byte that says which kind of block this is.
pub data AllocationKindTag : Type 0 where
  small large : AllocationKindTag

-- The part that routes a free.
pub record AllocationHeaderPrefix : Type 0 where
  pub magic : ℕ
  pub kind : AllocationKindTag
  pub class_index : ℕ
  pub reserved : ℕ
  pub requested_size : ℕ
  pub usable_size : ℕ
  pub owner_cache_id : ℕ

pub record AllocationHeader : Type 0 where
  pub magic : ℕ
  pub kind : AllocationKindTag
  pub class_index : ℕ
  pub reserved : ℕ
  pub requested_size : ℕ
  pub usable_size : ℕ
  pub owner_cache_id : ℕ
  pub free_metadata_alignment_padding : ℕ
  pub free_list_link : ℕ
  pub small_free_marker : ℕ
  pub tail_padding : ℕ

-- What a read of the prefix at a header's address gives.
abbrev pub prefix_of : AllocationHeader → AllocationHeaderPrefix
prefix_of h = record {
  magic = h.magic;
  kind = h.kind;
  class_index = h.class_index;
  reserved = h.reserved;
  requested_size = h.requested_size;
  usable_size = h.usable_size;
  owner_cache_id = h.owner_cache_id;
}

unfoldable pub size_class_to_index : SizeClass → ℕ
size_class_to_index b64 = 0
size_class_to_index b256 = 1
size_class_to_index b4k = 2
size_class_to_index b6k = 3
size_class_to_index b8k = 4
size_class_to_index b16k = 5
size_class_to_index b32k = 6
size_class_to_index b64k = 7
size_class_to_index b128k = 8
size_class_to_index b256k = 9
size_class_to_index b1m = 10
size_class_to_index b16m = 11

unfoldable pub index_to_size_class : ℕ → Option SizeClass
index_to_size_class i =
    if i == 0
    then some b64
    else if i == 1
    then some b256
    else if i == 2
    then some b4k
    else if i == 3
    then some b6k
    else if i == 4
    then some b8k
    else if i == 5
    then some b16k
    else if i == 6
    then some b32k
    else if i == 7
    then some b64k
    else if i == 8
    then some b128k
    else if i == 9
    then some b256k
    else if i == 10
    then some b1m
    else if i == 11
    then some b16m
    else none

-- The encoded class index, requested size and usable size.
unfoldable pub encode_small_fields : SizeClass → ℕ → Option (ℕ × ℕ × ℕ)
encode_small_fields c requested =
    if (requested == 0) || ltb (payload_size c) requested
    then none
    else elim (u32_try_from requested) [
      | none ↦ none
      | some r ↦ elim (u32_try_from (payload_size c)) [
        | none ↦ none
        | some u ↦ some (size_class_to_index c, r, u)
      ]
    ]

unfoldable pub encode_large_fields : ℕ → ℕ → Option (ℕ × ℕ)
encode_large_fields requested usable =
    if (requested == 0) || ltb usable requested then none else elim (u32_try_from requested) [
      | none ↦ none
      | some r ↦ elim (u32_try_from usable) [ none ↦ none | some u ↦ some (r, u) ]
    ]

unfoldable pub from_encoded_fields : AllocationKindTag → ℕ → ℕ → ℕ → ℕ → AllocationHeader
from_encoded_fields tag ci requested usable owner = record {
  magic = header_magic;
  kind = tag;
  class_index = ci;
  reserved = 0;
  requested_size = requested;
  usable_size = usable;
  owner_cache_id = owner;
  free_metadata_alignment_padding = 0;
  free_list_link = 0;
  small_free_marker = 0;
  tail_padding = 0;
}

unfoldable pub new_small : SizeClass → ℕ → Option AllocationHeader
new_small c requested = elim (encode_small_fields c requested) [
  | none ↦ none
  | some (ci, r, u) ↦ some (from_encoded_fields AllocationKindTag.small ci r u 0)
]

unfoldable pub new_large : ℕ → ℕ → Option AllocationHeader
new_large requested usable = elim (encode_large_fields requested usable) [
  | none ↦ none
  | some (r, u) ↦ some (from_encoded_fields AllocationKindTag.large large_class_sentinel r u 0)
]

-- The match on the kind of `validate_prefix`.
unfoldable pub validate_kind : AllocationKindTag → ℕ → ℕ → Result FreeError AllocationKind
validate_kind AllocationKindTag.small ci usable = elim (index_to_size_class ci) [
  | none ↦ err corrupt_header
  | some c ↦
      if not (usable == payload_size c) then err corrupt_header else ok (AllocationKind.small c)
]
validate_kind AllocationKindTag.large ci usable =
    if not (ci == large_class_sentinel) then err corrupt_header else ok AllocationKind.large

unfoldable pub validate_prefix : AllocationHeaderPrefix → Result FreeError AllocationKind
unfolding validate_kind
validate_prefix p =
    if not (p.magic == header_magic)
    then err corrupt_header
    else if (p.requested_size == 0) || ltb p.usable_size p.requested_size
    then err corrupt_header
    else validate_kind p.kind p.class_index p.usable_size

-- `AllocationHeader::validate` makes the same checks on the whole header.
unfoldable pub validate : AllocationHeader → Result FreeError AllocationKind
unfolding validate_kind
validate h =
    if not (h.magic == header_magic)
    then err corrupt_header
    else if (h.requested_size == 0) || ltb h.usable_size h.requested_size
    then err corrupt_header
    else validate_kind h.kind h.class_index h.usable_size

unfoldable pub small_owner_cache_id : AllocationHeader → Option ℕ
small_owner_cache_id h = elim h.kind [
  | AllocationKindTag.small ↦ some h.owner_cache_id
  | AllocationKindTag.large ↦ none
]

-- The caller has decoded the kind.
unfoldable pub small_owner_cache_id_after_kind_decode : AllocationHeader → ℕ
small_owner_cache_id_after_kind_decode h = h.owner_cache_id

-- Block, header and prefix share an address; the user pointer is 64 bytes further on.
unfoldable pub user_ptr_from_block_start : ℕ → ℕ
user_ptr_from_block_start block = wrapping_add block header_size

unfoldable pub header_from_user_ptr : ℕ → ℕ
header_from_user_ptr user = wrapping_sub user header_size

unfoldable pub block_start_from_user_ptr : ℕ → ℕ
unfolding header_from_user_ptr
block_start_from_user_ptr user = header_from_user_ptr user
