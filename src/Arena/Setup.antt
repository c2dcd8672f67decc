-- ===== src/Arena/Setup.antt =====
-- Construction of the arena (src/arena.rs): what `Arena::new` establishes.
use orthotope.Prelude.{
  ℕ, lt→ltb, ne→==, ◌+◌, ◌-◌, ◌%◌, ◌≤◌, ◌<◌, ◌≡◌, refl, inl, inr, true, none, some, Result, ok,
  arith, ◌==◌, ltb, Bool-cases, if◌then◌else◌,
}
use orthotope.Prelude.Rounding.{
  IsRoundUp, IsRoundDown, round_up, round_up_eq, round_up-IsRoundUp, round_down,
}
use orthotope.Prelude.Word.{usize_limit, is_power_of_two}
use orthotope.Config.{AllocatorConfig}
use orthotope.Arena.{Arena, align_up, align_down, validate_config, new}

-- The arena is usable: its base is aligned, not null, and its bytes lie in the address space; the
-- cursor is inside.
pub record IsArena (a : Arena) : Type 0 where
  pub alignment_pos : 0 < a.alignment
  pub base_pos : 0 < a.base
  pub base_aligned : a.base % a.alignment ≡ 0
  pub space : a.base + a.len ≤ usize_limit
  pub cursor : a.next ≤ a.len

-- `align_up` gives the least multiple that is not below the value, and `None` exactly when that is
-- past the largest address.
pub align_up-round_up :
    (v a : ℕ)
    → v < usize_limit
    → align_up v a ≡ (if ltb (round_up v a) usize_limit then some (round_up v a) else none)
unfolding align_up
align_up-round_up v a small = elim (Bool-cases (v % a == 0)) [
  | inl e ↦ rw (round_up_eq v a, e, lt→ltb v usize_limit small)
  | inr e ↦ rw (round_up_eq v a, e)
]

pub align_up-some :
    (v a : ℕ) → v < usize_limit → round_up v a < usize_limit → align_up v a ≡ some (round_up v a)
align_up-some v a small word = rw (align_up-round_up v a small, lt→ltb _ _ word)

pub align_down-IsRoundDown : (v a : ℕ) → 0 < a → IsRoundDown a v (align_down v a)
unfolding align_down
align_down-IsRoundDown v a h = round_down v a h

-- A configuration that passes is not empty, and its alignment is a power of two no larger than the
-- arena.
pub validate_config-ok :
    (cfg : AllocatorConfig)
    → validate_config cfg ≡ ok tt
    → (0 < cfg.alignment)
      × (cfg.alignment ≤ cfg.arena_size)
      × (is_power_of_two cfg.alignment ≡ true)
unfolding validate_config
validate_config-ok cfg h = ground arith

-- For a configuration that passes validation, and a mapping that succeeds, is not null and ends
-- inside the address space, construction succeeds: the arena is usable, has the configured size
-- and alignment, starts empty, and lies inside the mapping.
pub new-IsArena :
    (map_anon : ℕ → Result ℕ ℕ) (cfg : AllocatorConfig) (addr : ℕ)
    → validate_config cfg ≡ ok tt
    → map_anon (cfg.arena_size + (cfg.alignment - 1)) ≡ ok addr
    → 0 < addr
    → addr + (cfg.arena_size + (cfg.alignment - 1)) < usize_limit
    → (a : Arena) × (new map_anon cfg ≡ ok a)
      × IsArena a
      × (a.len ≡ cfg.arena_size)
      × (a.alignment ≡ cfg.alignment)
      × (a.next ≡ 0)
      × (addr ≤ a.base)
      × (a.base + a.len ≤ addr + (cfg.arena_size + (cfg.alignment - 1)))
unfolding new
new-IsArena map_anon cfg addr valid mapped pos room =
    let (positive, fits, _) = validate_config-ok cfg valid in
    let base = round_up addr cfg.alignment in
    let up : IsRoundUp cfg.alignment addr base = round_up-IsRoundUp addr cfg.alignment positive in
    (
      record { base = base; len = cfg.arena_size; next = 0; alignment = cfg.alignment },
      rw (
        valid,
        lt→ltb (cfg.arena_size + (cfg.alignment - 1)) usize_limit (omega arith),
        mapped,
        align_up-some addr cfg.alignment (omega arith) (omega arith),
        ne→== base 0 (omega arith),
      ),
      record {
        alignment_pos = positive;
        base_pos = omega arith;
        base_aligned = up.0;
        space = omega arith;
        cursor = omega arith;
      },
      refl,
      refl,
      refl,
      up.1,
      omega arith,
    )
