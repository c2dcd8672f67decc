-- ===== src/Header/Memory.antt =====
-- src/header.rs: reads and writes of headers in memory. A memory gives the header that stands at
-- each block start. Block starts are multiples of 64 and a header has 64 bytes, so two headers never
-- overlap. An unchecked conversion to `u32` is the number itself: the callers' contract is that it
-- fits. `debug` says whether the crate is built with debug assertions.
use Prim.Native.Nat.{bit_xor}
use orthotope.Prelude.{
  ℕ, ◌+◌, ◌-◌, ◌*◌, ◌/◌, ◌%◌, ◌^◌, Bool, true, false, Option, none, some, ◌==◌, if◌then◌else◌,
  Result, ok, ◌>>=◌,
}
use orthotope.Prelude.Word.{usize_limit}
use orthotope.Errors.{FreeError}
use orthotope.SizeClass.{SizeClass, header_size, payload_size}
use orthotope.Header.{
  AllocationHeader, AllocationKind, AllocationKindTag, header_magic, large_class_sentinel,
  prefix_of, size_class_to_index, encode_small_fields, encode_large_fields, from_encoded_fields,
  validate_prefix, block_start_from_user_ptr,
}

abbrev pub Memory : Type 0
Memory = ℕ → AllocationHeader

unfoldable pub update : Memory → ℕ → AllocationHeader → Memory
update m block h a = if a == block then h else m a

unfoldable pub write_to_block : AllocationHeader → Memory → ℕ → Memory
unfolding update
write_to_block h m block = update m block h

-- Every field is written, so nothing of the old header is left.
unfoldable pub write_encoded_fields : Memory → ℕ → AllocationKindTag → ℕ → ℕ → ℕ → ℕ → Memory
unfolding update
write_encoded_fields m block tag ci requested usable owner = update m block (record {
  magic = header_magic;
  kind = tag;
  class_index = ci;
  reserved = 0;
  requested_size = requested;
  usable_size = usable;
  owner_cache_id = owner;
  free_metadata_alignment_padding = 0;
  free_list_link = 0;
  small_free_marker = 0;
  tail_padding = 0;
})

unfoldable pub write_small_prefix : Memory → ℕ → ℕ → ℕ → ℕ → Memory
unfolding write_encoded_fields
write_small_prefix m block ci requested usable =
    write_encoded_fields m block AllocationKindTag.small ci requested usable 0

-- `none` when the request does not encode, and then nothing is written.
unfoldable pub write_small_to_block : Memory → ℕ → SizeClass → ℕ → ℕ → Option Memory
unfolding write_encoded_fields
write_small_to_block m block c requested owner = elim (encode_small_fields c requested) [
  | none ↦ none
  | some (ci, r, u) ↦ some (write_encoded_fields m block AllocationKindTag.small ci r u owner)
]

unfoldable pub write_small_to_block_unchecked : Memory → ℕ → SizeClass → ℕ → ℕ → Memory
unfolding write_encoded_fields
write_small_to_block_unchecked m block c requested owner =
    write_encoded_fields m block AllocationKindTag.small (size_class_to_index c) requested
      (payload_size c) owner

unfoldable pub initialize_small_to_block_unchecked : Memory → ℕ → SizeClass → Memory
unfolding write_small_prefix
initialize_small_to_block_unchecked m block c =
    write_small_prefix m block (size_class_to_index c) 0 (payload_size c)

unfoldable pub refresh_small_requested_size_unchecked : Memory → ℕ → ℕ → Memory
unfolding update
refresh_small_requested_size_unchecked m block requested =
    update m block (record (m block) { requested_size = requested })

unfoldable pub refresh_small_requested_size_and_owner_unchecked : Memory → ℕ → ℕ → ℕ → Memory
unfolding update
refresh_small_requested_size_and_owner_unchecked m block requested owner =
    update m block (record (m block) { requested_size = requested; owner_cache_id = owner })

unfoldable pub write_large_to_block : Memory → ℕ → ℕ → ℕ → Option Memory
unfolding write_encoded_fields
write_large_to_block m block requested usable = elim (encode_large_fields requested usable) [
  | none ↦ none
  | some (r, u) ↦
      some (write_encoded_fields m block AllocationKindTag.large large_class_sentinel r u 0)
]

-- The header handed on is rebuilt from the prefix; the other words are zero in it.
unfoldable pub read_from_user_ptr :
    Memory → ℕ → Result FreeError (AllocationHeader × AllocationKind)
unfolding block_start_from_user_ptr
read_from_user_ptr m user = do
  let p = prefix_of (m (block_start_from_user_ptr user))
  kind ← validate_prefix p
  ok (
    from_encoded_fields p.kind p.class_index p.requested_size p.usable_size p.owner_cache_id,
    kind,
  )

-- `NonNull::new`: the null address is no pointer.
abbrev pub non_null : ℕ → Option ℕ
non_null a = if a == 0 then none else some a

-- `next.map_or(0, |ptr| ptr.addr())`
abbrev pub addr_or_null : Option ℕ → ℕ
addr_or_null none = 0
addr_or_null (some p) = p

unfoldable pub read_small_free_list_next : Memory → ℕ → Option ℕ
read_small_free_list_next m block = non_null ((m block).free_list_link)

unfoldable pub write_small_free_list_next : Memory → ℕ → Option ℕ → Memory
unfolding update
write_small_free_list_next m block next =
    update m block (record (m block) { free_list_link = addr_or_null next })

-- `usize::rotate_left`, for a shift below 64
abbrev pub rotate_left : ℕ → ℕ → ℕ
rotate_left x k = (x * 2 ^ k) % usize_limit + x / 2 ^ (64 - k)

-- `usize::MAX ^ (HEADER_MAGIC as usize)`
abbrev pub small_free_marker_seed : ℕ
small_free_marker_seed = bit_xor (usize_limit - 1) header_magic

unfoldable pub small_free_marker_for : ℕ → ℕ
small_free_marker_for block =
    bit_xor (bit_xor small_free_marker_seed (rotate_left block 17)) header_size

unfoldable pub small_block_is_marked_freed : Bool → Memory → ℕ → Bool
small_block_is_marked_freed true m block =
    (m block).small_free_marker == small_free_marker_for block
small_block_is_marked_freed false m block = false

unfoldable pub mark_small_block_freed : Bool → Memory → ℕ → Memory
unfolding update
mark_small_block_freed true m block =
    update m block (record (m block) { small_free_marker = small_free_marker_for block })
mark_small_block_freed false m block = m

unfoldable pub clear_small_block_freed : Bool → Memory → ℕ → Memory
unfolding update
clear_small_block_freed true m block = update m block (record (m block) { small_free_marker = 0 })
clear_small_block_freed false m block = m

unfoldable pub clear_small_free_metadata : Bool → Memory → ℕ → Memory
unfolding clear_small_block_freed
clear_small_free_metadata debug m block = clear_small_block_freed debug m block
