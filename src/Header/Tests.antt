-- ===== src/Header/Tests.antt =====
-- The headers of src/header.rs in a small memory.
use orthotope.Prelude.{
  ℕ, ◌≤◌, ◌<◌, ◌≡◌, ◌≢◌, ◌↔◌, ◌⊎◌, refl, true, false, none, some, ok, err, arith,
}
use orthotope.Prelude.Word.{u32_limit}
use orthotope.Errors.{corrupt_header}
use orthotope.SizeClass.{b256, payload_size}
use orthotope.Header.{
  AllocationHeaderPrefix, AllocationKind, AllocationKindTag, from_encoded_fields, prefix_of,
  validate_prefix, user_ptr_from_block_start,
}
use orthotope.Header.Memory.{
  Memory, write_small_to_block_unchecked, write_large_to_block, read_from_user_ptr,
  small_block_is_marked_freed, mark_small_block_freed, clear_small_free_metadata,
}
use orthotope.Header.Valid.{IsPrefixOf, validate_prefix-IsPrefixOf}
use orthotope.Header.Roundtrip.{small_header, large_header, read-write_small, read-write_large}
use orthotope.Header.Marker.{marked-mark}

-- A memory in which no header is valid
abbrev blank : Memory
blank a = from_encoded_fields AllocationKindTag.small 0 0 0 0

abbrev large_prefix : AllocationHeaderPrefix
large_prefix = prefix_of (large_header 20_000_000 20_000_000)

-- The header of a large block whose class is 0 is corrupt.
abbrev wrong_prefix : AllocationHeaderPrefix
wrong_prefix = prefix_of (from_encoded_fields AllocationKindTag.large 0 10 20 0)

wrong_class : validate_prefix wrong_prefix ≡ err corrupt_header
unfolding validate_prefix from_encoded_fields
wrong_class = refl

validate_prefix-IsPrefixOf_example :
    (validate_prefix large_prefix ≡ ok AllocationKind.large)
    ↔ IsPrefixOf AllocationKind.large large_prefix
validate_prefix-IsPrefixOf_example = validate_prefix-IsPrefixOf large_prefix AllocationKind.large

abbrev request : ℕ
request = 100

abbrev large_request : ℕ
large_request = 20_000_000

fits_b256 : request ≤ payload_size b256
unfolding payload_size
fits_b256 = omega arith

read-write_small_example :
    (read_from_user_ptr
        (write_small_to_block_unchecked blank 4_096 b256 request 3)
        (user_ptr_from_block_start 4_096)
      ≡ ok (small_header b256 request 3, AllocationKind.small b256))
    × ((a : ℕ) → a ≢ 4_096 → write_small_to_block_unchecked blank 4_096 b256 request 3 a ≡ blank a)
read-write_small_example =
    read-write_small blank 4_096 b256 request 3 (omega arith) (omega arith) fits_b256

read-write_large_example :
    ((0 < large_request) × (large_request ≤ large_request) × (large_request < u32_limit)
      → (m : Memory) × (write_large_to_block blank 4_096 large_request large_request ≡ some m)
        × (read_from_user_ptr m (user_ptr_from_block_start 4_096)
            ≡ ok (large_header large_request large_request, AllocationKind.large))
        × ((a : ℕ) → a ≢ 4_096 → m a ≡ blank a))
    × ((large_request ≡ 0) ⊎ (large_request < large_request) ⊎ (u32_limit ≤ large_request)
        → write_large_to_block blank 4_096 large_request large_request ≡ none)
read-write_large_example = read-write_large blank 4_096 large_request large_request (omega arith)

marked-mark_example :
    (small_block_is_marked_freed true (mark_small_block_freed true blank 4_096) 4_096 ≡ true)
    × (small_block_is_marked_freed true (clear_small_free_metadata true blank 4_096) 4_096 ≡ false)
marked-mark_example = marked-mark blank 4_096 (omega arith) (omega arith)
