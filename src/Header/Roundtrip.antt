-- ===== src/Header/Roundtrip.antt =====
-- A header that is written is read back by a free (src/header.rs).
use orthotope.Prelude.{ℕ, ◌+◌, ◌≤◌, ◌<◌, ◌≡◌, refl, ◌≢◌, ◌⊎◌, none, some, ok, arith}
use orthotope.Prelude.Word.{usize_limit, u32_limit}
use orthotope.SizeClass.{SizeClass, header_size, payload_size}
use orthotope.Header.{
  AllocationHeader, AllocationKind, AllocationKindTag, large_class_sentinel, prefix_of,
  size_class_to_index, encode_small_fields, encode_large_fields, from_encoded_fields,
  user_ptr_from_block_start, block_start_from_user_ptr,
}
use orthotope.Header.Memory.{
  Memory, update, write_small_to_block, write_small_to_block_unchecked,
  initialize_small_to_block_unchecked, refresh_small_requested_size_and_owner_unchecked,
  write_large_to_block, read_from_user_ptr,
}
use orthotope.Header.Valid.{IsPrefixOf, validate_prefix-IsPrefixOf}

-- The user pointer of a block leads back to the block, for every address whose header does not run
-- past the end of the address space, and the user pointer is 64 bytes further on.
pub block_start-user_ptr :
    (block : ℕ)
    → block + header_size < usize_limit
    → (block_start_from_user_ptr (user_ptr_from_block_start block) ≡ block)
      × (user_ptr_from_block_start block ≡ block + header_size)
unfolding block_start_from_user_ptr user_ptr_from_block_start
block_start-user_ptr block h = omega arith

pub payload-lt-u32 : (c : SizeClass) → payload_size c < u32_limit
unfolding payload_size
payload-lt-u32 c = ground arith

pub payload_pos : (c : SizeClass) → 0 < payload_size c
unfolding payload_size
payload_pos c = ground arith

-- The header that a free rebuilds from the prefix of a block.
abbrev pub decoded : AllocationHeader → AllocationHeader
decoded h = from_encoded_fields h.kind h.class_index h.requested_size h.usable_size h.owner_cache_id

-- The header of a live small block, and of a live large one.
abbrev pub small_header : SizeClass → ℕ → ℕ → AllocationHeader
small_header c requested owner =
    from_encoded_fields AllocationKindTag.small (size_class_to_index c) requested (payload_size c)
      owner

abbrev pub large_header : ℕ → ℕ → AllocationHeader
large_header requested usable =
    from_encoded_fields AllocationKindTag.large large_class_sentinel requested usable 0

-- A block whose header has a valid prefix is read through its user pointer as that kind.
pub read-IsPrefixOf :
    (m : Memory) (block : ℕ) (hdr : AllocationHeader) (k : AllocationKind)
    → block + header_size < usize_limit
    → m block ≡ hdr
    → IsPrefixOf k (prefix_of hdr)
    → read_from_user_ptr m (user_ptr_from_block_start block) ≡ ok (decoded hdr, k)
unfolding read_from_user_ptr
read-IsPrefixOf m block hdr k h e v =
    rw ((block_start-user_ptr block h).0, e, (validate_prefix-IsPrefixOf (prefix_of hdr) k).1 v)

pub small_header-IsPrefixOf :
    (c : SizeClass) (n owner : ℕ)
    → 0 < n
    → n ≤ payload_size c
    → IsPrefixOf (AllocationKind.small c) (prefix_of (small_header c n owner))
unfolding from_encoded_fields
small_header-IsPrefixOf c n owner pos fits = record {
  magic = refl;
  requested_pos = pos;
  requested_fits = fits;
  fields = (refl, refl, refl);
}

pub large_header-IsPrefixOf :
    (n usable : ℕ)
    → 0 < n
    → n ≤ usable
    → IsPrefixOf AllocationKind.large (prefix_of (large_header n usable))
unfolding from_encoded_fields
large_header-IsPrefixOf n usable pos fits = record {
  magic = refl;
  requested_pos = pos;
  requested_fits = fits;
  fields = (refl, refl);
}

encode_small_some :
    (c : SizeClass) (n : ℕ)
    → 0 < n
    → n ≤ payload_size c
    → encode_small_fields c n ≡ some (size_class_to_index c, n, payload_size c)
unfolding encode_small_fields
encode_small_some c n pos fits = ground (arith, payload-lt-u32 c)

encode_small_none :
    (c : SizeClass) (n : ℕ) → (n ≡ 0) ⊎ (payload_size c < n) → encode_small_fields c n ≡ none
unfolding encode_small_fields
encode_small_none c n bad = ground arith

-- The checked write of a small header equals the unchecked one on every request from 1 to the
-- payload of its class, and refuses every other request.
pub write_small_checked :
    (m : Memory) (block : ℕ) (c : SizeClass) (n owner : ℕ)
    → (0 < n
        → n ≤ payload_size c
        → write_small_to_block m block c n owner
          ≡ some (write_small_to_block_unchecked m block c n owner))
      × ((n ≡ 0) ⊎ (payload_size c < n) → write_small_to_block m block c n owner ≡ none)
unfolding write_small_to_block write_small_to_block_unchecked
write_small_checked m block c n owner = (
  λ pos fits. rw (encode_small_some c n pos fits, write_small_to_block),
  λ bad. rw (encode_small_none c n bad, write_small_to_block),
)

-- For a block whose header ends inside the address space and a request from 1 to the payload of
-- its class, the header that is written is read back through the user pointer with its class,
-- requested size, usable size and owner, and no other header changes.
pub read-write_small :
    (m : Memory) (block : ℕ) (c : SizeClass) (n owner : ℕ)
    → block + header_size < usize_limit
    → 0 < n
    → n ≤ payload_size c
    → (read_from_user_ptr
          (write_small_to_block_unchecked m block c n owner)
          (user_ptr_from_block_start block)
        ≡ ok (small_header c n owner, AllocationKind.small c))
      × ((a : ℕ) → a ≢ block → write_small_to_block_unchecked m block c n owner a ≡ m a)
unfolding write_small_to_block_unchecked from_encoded_fields
read-write_small m block c n owner h pos fits = (
  read-IsPrefixOf _ block (small_header c n owner) _ h written
      (small_header-IsPrefixOf c n owner pos fits),
  λ a ne. ground arith,
)
  where
    written : write_small_to_block_unchecked m block c n owner block ≡ small_header c n owner
    written = ground arith

-- For a block whose header ends inside the address space and a request from 1 to the payload of
-- its class, a header set up without a request and then refreshed with a request and an owner, as
-- for a block that came through the central pool, is read back as if it had been written whole.
pub read-refresh :
    (m : Memory) (block : ℕ) (c : SizeClass) (n owner : ℕ)
    → block + header_size < usize_limit
    → 0 < n
    → n ≤ payload_size c
    → read_from_user_ptr
        (refresh_small_requested_size_and_owner_unchecked
          (initialize_small_to_block_unchecked m block c)
          block
          n
          owner)
        (user_ptr_from_block_start block)
      ≡ ok (small_header c n owner, AllocationKind.small c)
unfolding refresh_small_requested_size_and_owner_unchecked initialize_small_to_block_unchecked
    from_encoded_fields
read-refresh m block c n owner h pos fits =
    read-IsPrefixOf _ block (small_header c n owner) _ h written
      (small_header-IsPrefixOf c n owner pos fits)
  where
    written :
        refresh_small_requested_size_and_owner_unchecked
          (initialize_small_to_block_unchecked m block c)
          block
          n
          owner
          block
        ≡ small_header c n owner
    written = ground arith

-- For a block whose header ends inside the address space, a large header is written when the
-- request is not zero, fits the usable size, and the usable size fits 32 bits, and it is then
-- read back as large with both sizes while no other header changes; in every other case the write
-- is refused.
pub read-write_large :
    (m : Memory) (block n usable : ℕ)
    → block + header_size < usize_limit
    → ((0 < n) × (n ≤ usable) × (usable < u32_limit)
        → (m' : Memory) × (write_large_to_block m block n usable ≡ some m')
          × (read_from_user_ptr m' (user_ptr_from_block_start block)
              ≡ ok (large_header n usable, AllocationKind.large))
          × ((a : ℕ) → a ≢ block → m' a ≡ m a))
      × ((n ≡ 0) ⊎ (usable < n) ⊎ (u32_limit ≤ usable)
          → write_large_to_block m block n usable ≡ none)
unfolding write_large_to_block encode_large_fields from_encoded_fields
read-write_large m block n usable h = (written, λ bad. ground arith)
  where
    written :
        (0 < n) × (n ≤ usable) × (usable < u32_limit)
        → (m' : Memory) × (write_large_to_block m block n usable ≡ some m')
          × (read_from_user_ptr m' (user_ptr_from_block_start block)
              ≡ ok (large_header n usable, AllocationKind.large))
          × ((a : ℕ) → a ≢ block → m' a ≡ m a)
    written (pos, fits, word) = (
      update m block (large_header n usable),
      ground arith,
      read-IsPrefixOf _ block (large_header n usable) _ h (unfold update in ground arith)
          (large_header-IsPrefixOf n usable pos fits),
      λ a ne. unfold update in ground arith,
    )
