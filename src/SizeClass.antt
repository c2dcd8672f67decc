-- ===== src/SizeClass.antt =====
-- src/size_class.rs: the twelve fixed classes of small requests, their payloads, their block sizes
-- and their dense index.
pub mod Bounds
pub mod Request
pub mod Tests
use Prim.Native.Nat.{ℕ, ◌+◌, ◌-◌, ◌*◌, ◌%◌}
use orthotope.Prelude.{Option, none, some, List, [], ◌∷◌, ltb, leb, ◌==◌, if◌then◌else◌, ◌&&◌}
use orthotope.Prelude.{Bool}

pub data SizeClass : Type 0 where
  b64 b256 b4k b6k b8k b16k b32k b64k b128k b256k b1m b16m : SizeClass

abbrev pub num_classes : ℕ
num_classes = 12

abbrev pub block_alignment : ℕ
block_alignment = 64

-- `HEADER_SIZE` of src/header.rs, which size_class.rs imports.
abbrev pub header_size : ℕ
header_size = 64

abbrev pub all : List SizeClass
all = b64 ∷ b256 ∷ b4k ∷ b6k ∷ b8k ∷ b16k ∷ b32k ∷ b64k ∷ b128k ∷ b256k ∷ b1m ∷ b16m ∷ []

-- A range pattern `lo..=hi`.
abbrev within : ℕ → ℕ → ℕ → Bool
within lo hi n = leb lo n && leb n hi

unfoldable pub from_request : ℕ → Option SizeClass
from_request size =
    if within 1 64 size
    then some b64
    else if within 65 256 size
    then some b256
    else if within 257 4096 size
    then some b4k
    else if within 4097 6144 size
    then some b6k
    else if within 6145 8192 size
    then some b8k
    else if within 8193 16_384 size
    then some b16k
    else if within 16_385 32_768 size
    then some b32k
    else if within 32_769 65_536 size
    then some b64k
    else if within 65_537 131_072 size
    then some b128k
    else if within 131_073 262_144 size
    then some b256k
    else if within 262_145 1_048_576 size
    then some b1m
    else if within 1_048_577 16_777_216 size
    then some b16m
    else none

unfoldable pub payload_size : SizeClass → ℕ
payload_size b64 = 64
payload_size b256 = 256
payload_size b4k = 4_096
payload_size b6k = 6 * 1_024
payload_size b8k = 8_192
payload_size b16k = 16_384
payload_size b32k = 32_768
payload_size b64k = 65_536
payload_size b128k = 131_072
payload_size b256k = 262_144
payload_size b1m = 1_048_576
payload_size b16m = 16_777_216

unfoldable pub align_up : ℕ → ℕ → ℕ
align_up value alignment =
    let remainder = value % alignment in
    if remainder == 0 then value else value + (alignment - remainder)

unfoldable pub effective_block_alignment : ℕ → ℕ
effective_block_alignment alignment =
    if ltb alignment block_alignment then block_alignment else alignment

unfoldable pub block_size : SizeClass → ℕ
block_size c = align_up (payload_size c + header_size) block_alignment

unfoldable pub block_size_for_alignment : SizeClass → ℕ → ℕ
block_size_for_alignment c alignment =
    align_up (payload_size c + header_size) (effective_block_alignment alignment)

unfoldable pub index : SizeClass → ℕ
index b64 = 0
index b256 = 1
index b4k = 2
index b6k = 3
index b8k = 4
index b16k = 5
index b32k = 6
index b64k = 7
index b128k = 8
index b256k = 9
index b1m = 10
index b16m = 11

unfoldable pub max_small_request : ℕ
max_small_request = payload_size b16m
