-- ===== src/Config/Tests.antt =====
-- The counts of src/config.rs under the default configuration.
use orthotope.Prelude.{◌+◌, ◌*◌, ◌≤◌, ◌<◌, ◌≡◌, refl, ◌⊎◌}
use orthotope.SizeClass.{
  b64, b4k, block_size_for_alignment, align_up, payload_size, effective_block_alignment,
}
use orthotope.Config.{class_block_size, refill_count, local_limit, drain_count, default_config}
use orthotope.Config.Counts.{refill_count_bounds}

default_counts :
    (refill_count default_config b64 ≡ 256)
    × (drain_count default_config b64 ≡ 128)
    × (local_limit default_config b64 ≡ 512)
    × (refill_count default_config b4k ≡ 7)
unfolding refill_count drain_count local_limit class_block_size block_size_for_alignment align_up
    payload_size effective_block_alignment
default_counts = (refl, refl, refl, refl)

refill_count_bounds_example :
    (1 ≤ refill_count default_config b4k)
    × ((refill_count default_config b4k ≡ 1)
        ⊎ (class_block_size default_config b4k * refill_count default_config b4k
            ≤ default_config.refill_target_bytes))
    × (default_config.refill_target_bytes
        < class_block_size default_config b4k * refill_count default_config b4k
          + class_block_size default_config b4k)
refill_count_bounds_example = refill_count_bounds default_config b4k
