-- ===== src/Header/Marker.antt =====
-- The freed marker of src/header.rs, in a build with debug assertions and in one without.
use Prim.Native.Nat.{bit_xor}
use orthotope.Prelude.{
  ℕ, ◌%◌, ◌<◌, ◌≡◌, refl, ap, sym, ◌∙◌, ◌≢◌, Bool, true, false, Option, arith, ne→==, eq→==,
}
use orthotope.Prelude.Bits.{bit, bit-xor, bit-div}
use orthotope.Prelude.Word.{usize_limit}
use orthotope.SizeClass.{header_size}
use orthotope.Header.{header_alignment, prefix_of}
use orthotope.Header.Memory.{
  Memory, rotate_left, small_free_marker_seed, small_free_marker_for, small_block_is_marked_freed,
  mark_small_block_freed, clear_small_free_metadata, write_small_free_list_next,
}

-- A rotation by 17 moves the low bits of an address to weight 2 ^ 17 and above.
bit-rotate_left :
    (block : ℕ) → block < usize_limit → block % 64 ≡ 0 → bit 18 (rotate_left block 17) ≡ 0
bit-rotate_left block small aligned = bit-div 18 (rotate_left block 17) ∙ omega arith

-- The marker of an aligned block is never the cleared value 0.
pub marker-ne-zero :
    (block : ℕ)
    → block < usize_limit
    → block % header_alignment ≡ 0
    → small_free_marker_for block ≢ 0
unfolding small_free_marker_for
marker-ne-zero block small aligned e = omega (
  arith,
  ap (bit 18) e,
  bit-xor 18 (bit_xor small_free_marker_seed (rotate_left block 17)) header_size,
  bit-xor 18 small_free_marker_seed (rotate_left block 17),
  bit-rotate_left block small aligned,
)

-- With debug assertions, marking a block at a 64-byte aligned address makes it read as freed, and
-- clearing it makes it read as not freed.
pub marked-mark :
    (m : Memory) (block : ℕ)
    → block < usize_limit
    → block % header_alignment ≡ 0
    → (small_block_is_marked_freed true (mark_small_block_freed true m block) block ≡ true)
      × (small_block_is_marked_freed true (clear_small_free_metadata true m block) block ≡ false)
unfolding small_block_is_marked_freed mark_small_block_freed clear_small_free_metadata
marked-mark m block small aligned = (
  rw (eq→== block block refl) (eq→== _ _ refl),
  rw (eq→== block block refl) (ne→== _ _ λ e. marker-ne-zero block small aligned (sym e)),
)

-- In either build, marking and clearing change no prefix, no link and no other block, and without
-- debug assertions no block ever reads as freed.
pub mark_frame :
    (debug : Bool) (m : Memory) (block a : ℕ)
    → (prefix_of (mark_small_block_freed debug m block a) ≡ prefix_of (m a))
      × ((mark_small_block_freed debug m block a).free_list_link ≡ (m a).free_list_link)
      × (a ≢ block → mark_small_block_freed debug m block a ≡ m a)
      × (small_block_is_marked_freed false m a ≡ false)
unfolding small_block_is_marked_freed mark_small_block_freed
mark_frame true m block a = (ground arith, ground arith, λ ne. ground arith, refl)
mark_frame false m block a = (refl, refl, λ ne. refl, refl)

pub clear_frame :
    (debug : Bool) (m : Memory) (block a : ℕ)
    → (prefix_of (clear_small_free_metadata debug m block a) ≡ prefix_of (m a))
      × ((clear_small_free_metadata debug m block a).free_list_link ≡ (m a).free_list_link)
      × (a ≢ block → clear_small_free_metadata debug m block a ≡ m a)
unfolding clear_small_free_metadata
clear_frame true m block a = (ground arith, ground arith, λ ne. ground arith)
clear_frame false m block a = (refl, refl, λ ne. refl)

-- Linking a block changes neither its prefix nor its marker, nor any other block.
pub link_frame :
    (m : Memory) (block a : ℕ) (next : Option ℕ)
    → (prefix_of (write_small_free_list_next m block next a) ≡ prefix_of (m a))
      × ((write_small_free_list_next m block next a).small_free_marker ≡ (m a).small_free_marker)
      × (a ≢ block → write_small_free_list_next m block next a ≡ m a)
unfolding write_small_free_list_next
link_frame m block a next = (ground arith, ground arith, λ ne. ground arith)
