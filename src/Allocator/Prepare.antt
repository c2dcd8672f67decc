-- ===== src/Allocator/Prepare.antt =====
-- The header of a small block that src/allocator.rs hands out, as a free reads it.
use orthotope.Prelude.{ℕ, ◌+◌, ◌≤◌, ◌<◌, ◌≡◌, refl, ap, ◌∙◌, ◌≢◌, eq→==, ne→==, ok}
use orthotope.Prelude.Word.{usize_limit}
use orthotope.SizeClass.{SizeClass, header_size, payload_size}
use orthotope.Header.{
  AllocationHeaderPrefix, AllocationKind, prefix_of, from_encoded_fields, user_ptr_from_block_start,
}
use orthotope.Header.Memory.{
  Memory, update, read_from_user_ptr, refresh_small_requested_size_unchecked,
  refresh_small_requested_size_and_owner_unchecked,
}
use orthotope.Header.Roundtrip.{
  small_header, small_header-IsPrefixOf, read-IsPrefixOf, read-write_small, block_start-user_ptr,
}
use orthotope.ThreadCache.LocalSlab.{
  BlockReuse, hot_reuse_requested_only, needs_owner_and_requested_size_refresh,
  needs_header_rewrite,
}
use orthotope.Allocator.DoubleFree.{read_same}
use orthotope.Allocator.Small.{prepare_header}

-- What the header of a popped block must already say: nothing for a fresh block, the class for a block of
-- the pool, and the class and the owner for a block that this cache freed.
abbrev pub Primed : Memory → (cache_id : ℕ) → SizeClass → BlockReuse → ℕ → Type 0
Primed m cache_id class needs_header_rewrite block = Unit
Primed m cache_id class needs_owner_and_requested_size_refresh block =
    (n owner : ℕ) × (prefix_of (m block) ≡ prefix_of (small_header class n owner))
Primed m cache_id class hot_reuse_requested_only block =
    (n : ℕ) × (prefix_of (m block) ≡ prefix_of (small_header class n cache_id))

-- A block with the prefix of a small header is read as one.
read_small :
    (m : Memory) (block : ℕ) (class : SizeClass) (n owner : ℕ)
    → block + header_size < usize_limit
    → 0 < n
    → n ≤ payload_size class
    → prefix_of (m block) ≡ prefix_of (small_header class n owner)
    → read_from_user_ptr m (user_ptr_from_block_start block)
      ≡ ok (small_header class n owner, AllocationKind.small class)
unfolding from_encoded_fields
read_small m block class n owner h pos fits e =
    read_same (λ a. small_header class n owner) m (user_ptr_from_block_start block)
      (rw (block_start-user_ptr block h).0 e)
    ∙ read-IsPrefixOf (λ a. small_header class n owner) block (small_header class n owner)
        (AllocationKind.small class) h refl (small_header-IsPrefixOf class n owner pos fits)

refresh-prefix :
    (m : Memory) (block : ℕ) (class : SizeClass) (n owner requested : ℕ)
    → prefix_of (m block) ≡ prefix_of (small_header class n owner)
    → prefix_of (refresh_small_requested_size_unchecked m block requested block)
      ≡ prefix_of (small_header class requested owner)
unfolding refresh_small_requested_size_unchecked from_encoded_fields
refresh-prefix m block class n owner requested e =
    rw (update, eq→== block block refl)
      (ap (λ (p : AllocationHeaderPrefix). record p { requested_size = requested }) e)

refresh_owner-prefix :
    (m : Memory) (block : ℕ) (class : SizeClass) (n owner requested cache_id : ℕ)
    → prefix_of (m block) ≡ prefix_of (small_header class n owner)
    → prefix_of (refresh_small_requested_size_and_owner_unchecked m block requested cache_id block)
      ≡ prefix_of (small_header class requested cache_id)
unfolding refresh_small_requested_size_and_owner_unchecked from_encoded_fields
refresh_owner-prefix m block class n owner requested cache_id e =
    rw (update, eq→== block block refl)
      (ap
        (λ (p : AllocationHeaderPrefix). record p {
          requested_size = requested;
          owner_cache_id = cache_id;
        })
        e)

-- Whatever the header of a popped block still lacks, after `prepare_header` it is read back with the class,
-- the request and the cache, and no other header has changed.
pub prepare-read :
    (reuse : BlockReuse) (m : Memory) (block : ℕ) (class : SizeClass) (requested cache_id : ℕ)
    → Primed m cache_id class reuse block
    → block + header_size < usize_limit
    → 0 < requested
    → requested ≤ payload_size class
    → (read_from_user_ptr
          (prepare_header reuse m block class requested cache_id)
          (user_ptr_from_block_start block)
        ≡ ok (small_header class requested cache_id, AllocationKind.small class))
      × ((a : ℕ) → a ≢ block → prepare_header reuse m block class requested cache_id a ≡ m a)
unfolding prepare_header refresh_small_requested_size_unchecked
    refresh_small_requested_size_and_owner_unchecked
prepare-read needs_header_rewrite m block class requested cache_id primed h pos fits =
    read-write_small m block class requested cache_id h pos fits
prepare-read needs_owner_and_requested_size_refresh m block class requested cache_id (n, owner, e) h
      pos fits =
    (
      read_small _ block class requested cache_id h pos fits
          (refresh_owner-prefix m block class n owner requested cache_id e),
      λ a ne. rw (update, ne→== a block ne) refl,
    )
prepare-read hot_reuse_requested_only m block class requested cache_id (n, e) h pos fits = (
  read_small _ block class requested cache_id h pos fits
      (refresh-prefix m block class n cache_id requested e),
  λ a ne. rw (update, ne→== a block ne) refl,
)
