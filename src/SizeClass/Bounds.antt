-- ===== src/SizeClass/Bounds.antt =====
-- Block sizes of src/size_class.rs: `align_up`, `block_size_for_alignment` under any alignment, and
-- the dense index.
use orthotope.Prelude.{ℕ, ◌+◌, ◌≤◌, ◌<◌, ◌≡◌, refl, ap, arith, some, get_elem?, max}
use orthotope.Prelude.Rounding.{IsRoundUp, round_up_eq, round_up-IsRoundUp}
use orthotope.SizeClass.{
  SizeClass, all, num_classes, block_alignment, header_size, payload_size, align_up,
  effective_block_alignment, block_size, block_size_for_alignment, index, b64,
}

pub align_up-IsRoundUp : (v a : ℕ) → 0 < a → IsRoundUp a v (align_up v a)
unfolding align_up
align_up-IsRoundUp v a h = rw (← round_up_eq v a) (round_up-IsRoundUp v a h)

-- The effective alignment is the larger of the given one and 64.
pub effective-max : (a : ℕ) → effective_block_alignment a ≡ max a block_alignment
unfolding effective_block_alignment
effective-max a = ground arith

-- At every alignment, also one below 64, the block of a class is its payload and the 64-byte header
-- rounded up to a multiple of the alignment or of 64, whichever is larger: it holds both and wastes
-- less than one unit.
pub block_size-IsRoundUp :
    (c : SizeClass) (a : ℕ)
    → IsRoundUp
        (max a block_alignment)
        (payload_size c + header_size)
        (block_size_for_alignment c a)
unfolding block_size_for_alignment
block_size-IsRoundUp c a =
    rw effective-max (align_up-IsRoundUp (payload_size c + header_size) _ (omega arith))

pub block_size_pos : (c : SizeClass) (a : ℕ) → 64 ≤ block_size_for_alignment c a
block_size_pos c a = omega (arith, (block_size-IsRoundUp c a).1)

-- Under the default alignment a block is exactly its header and payload, with nothing wasted.
pub block_size_default :
    (c : SizeClass)
    → (block_size c ≡ payload_size c + header_size) × (block_size_for_alignment c 64 ≡ block_size c)
unfolding block_size block_size_for_alignment align_up payload_size effective_block_alignment
block_size_default b64 = (refl, refl)
block_size_default _ = (refl, refl)

-- `ALL` lists each class at its own index.
pub get_elem?-index : (c : SizeClass) → (index c < num_classes) × (get_elem? all (index c) ≡ some c)
unfolding index
get_elem?-index b64 = (omega arith, refl)
get_elem?-index _ = (omega arith, refl)

pub index-injective : (c d : SizeClass) → index c ≡ index d → c ≡ d
index-injective c d e = cc ((get_elem?-index c).1, (get_elem?-index d).1, ap (get_elem? all) e)
