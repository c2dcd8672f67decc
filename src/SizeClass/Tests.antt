-- ===== src/SizeClass/Tests.antt =====
-- The functions of src/size_class.rs at concrete sizes.
use orthotope.Prelude.{◌≡◌, refl, ◌↔◌, ◌≤◌, ◌<◌, ℕ, none, some, max, ◌+◌}
use orthotope.Prelude.Rounding.{IsRoundUp}
use orthotope.SizeClass.{
  SizeClass, from_request, payload_size, block_size_for_alignment, header_size, block_alignment,
  align_up, effective_block_alignment, b64, b256, b4k,
}
use orthotope.SizeClass.Request.{from_request_least}
use orthotope.SizeClass.Bounds.{block_size-IsRoundUp}

-- Both ends of a class, and the two requests that have none
from_request_ends :
    (from_request 65 ≡ some b256)
    × (from_request 256 ≡ some b256)
    × (from_request 0 ≡ none)
    × (from_request 16_777_217 ≡ none)
unfolding from_request
from_request_ends = (refl, refl, refl, refl)

-- A 128-byte alignment pads the block of the smallest class only to its own multiple.
block_size_128 :
    (block_size_for_alignment b64 128 ≡ 128) × (block_size_for_alignment b256 128 ≡ 384)
unfolding block_size_for_alignment align_up payload_size effective_block_alignment
block_size_128 = (refl, refl)

from_request_least_example : (from_request 300 ≡ some b4k) ↔ (
    (0 < 300)
    × (300 ≤ payload_size b4k)
    × ((d : SizeClass) → 300 ≤ payload_size d → payload_size b4k ≤ payload_size d))
from_request_least_example = from_request_least 300 b4k

abbrev too_large : ℕ
too_large = 16_777_217

block_size-IsRoundUp_example :
    IsRoundUp
      (max 128 block_alignment)
      (payload_size b256 + header_size)
      (block_size_for_alignment b256 128)
block_size-IsRoundUp_example = block_size-IsRoundUp b256 128
