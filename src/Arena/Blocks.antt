-- ===== src/Arena/Blocks.antt =====
-- `reserve_block_span` of src/arena.rs: as many whole blocks as fit, up to a target.
use native.Mathlib.Nat.{div-mul-le_self, zero-div}
use native.Mathlib.Decide.{dec_le}
use orthotope.Prelude.{
  ℕ, ◌+◌, ◌-◌, ◌*◌, ◌/◌, ◌≤◌, ◌<◌, min, ◌≡◌, refl, ap, false, ◌⊎◌, inl, inr, none, some, ok, arith,
  ◌==◌, if◌then◌else◌, lt→ltb, le→ltb, ne→==, Bool-cases, ==→eq,
}
use orthotope.Prelude.Word.{usize_limit}
use orthotope.Arena.{Arena, plan_block_span, reserve_block_span}
use orthotope.Arena.Setup.{IsArena}
use orthotope.Arena.Reserve.{aligned_from, align_up-aligned_from, span_at-start, IsArena-advance}

-- The whole blocks that fit behind a cursor, at most the target.
abbrev pub blocks_from : Arena → ℕ → ℕ → ℕ → ℕ
blocks_from a current block target = min target ((a.len - aligned_from a current) / block)

-- So many blocks fit into the rest.
min-div-mul-le : (n q b rest : ℕ) → n ≤ q → q * b ≤ rest → n * b ≤ rest
min-div-mul-le n q b rest h k = grind arith

pub mul_pos : (n b : ℕ) → 0 < n → 0 < b → 0 < n * b
mul_pos n b h k = grind arith

pub blocks_from_fit :
    (a : Arena) (current block target : ℕ)
    → blocks_from a current block target * block ≤ a.len - aligned_from a current
blocks_from_fit a current block target =
    min-div-mul-le _ ((a.len - aligned_from a current) / block) block _ (omega arith)
      (div-mul-le_self (a.len - aligned_from a current) block)

-- If any fits, they end inside the arena.
pub blocks_from_inside :
    (a : Arena) (current block target : ℕ)
    → (blocks_from a current block target == 0) ≡ false
    → aligned_from a current + blocks_from a current block target * block ≤ a.len
blocks_from_inside a current block target e = elim (dec_le (aligned_from a current) a.len) [
  | yes h ↦ omega (arith, blocks_from_fit a current block target)
  | no h ↦ absurd (none_left (a.len - aligned_from a current) (omega arith) e)
]
  where
    none_left : (rest : ℕ) → rest ≡ 0 → (min target (rest / block) == 0) ≡ false → ⊥
    none_left rest z e' = ground (arith, ap (λ t. t / block) z, zero-div block)

module _ {a : Arena} (is : IsArena a) where
  -- One round plans that many blocks from the first aligned offset, or none.
  pub plan_block_span_lem :
      (current block target : ℕ)
      → current ≤ a.len
      → plan_block_span a current block target ≡ (
          let n = blocks_from a current block target in
          if n == 0
          then ok none
          else ok (some (aligned_from a current, n * block, aligned_from a current + n * block)))
  unfolding plan_block_span
  plan_block_span_lem current block target h =
      let n = blocks_from a current block target in
      rw (align_up-aligned_from is current h) (elim (Bool-cases (n == 0)) [
        | inl e ↦ rw e refl
        | inr e ↦
            let inside = blocks_from_inside a current block target e in
            rw (
              e,
              lt→ltb (n * block) usize_limit (omega (arith, is.space, is.base_pos)),
              lt→ltb (aligned_from a current + n * block) usize_limit
                  (omega (arith, is.space, is.base_pos)),
              le→ltb a.len (aligned_from a current + n * block) inside,
            )
      ])

  -- In a usable arena, a reservation of at least one block of at least one byte takes as many
  -- blocks as fit behind the first aligned offset, up to the target. If not one fits it returns
  -- no span and changes nothing; otherwise the span holds exactly those blocks, the cursor moves
  -- to its end, and the arena stays usable.
  pub reserve_block_span_lem :
      (block target : ℕ)
      → 0 < block
      → 0 < target
      → ((blocks_from a a.next block target ≡ 0)
          × (reserve_block_span a block target ≡ ok (none, a)))
        ⊎ ((0 < blocks_from a a.next block target)
            × (reserve_block_span a block target
                ≡ ok (
                  some (record {
                    start = a.base + aligned_from a a.next;
                    size = blocks_from a a.next block target * block;
                  }),
                  record a {
                    next = aligned_from a a.next + blocks_from a a.next block target * block;
                  },
                ))
            × IsArena (record a {
              next = aligned_from a a.next + blocks_from a a.next block target * block;
            }))
  unfolding reserve_block_span
  reserve_block_span_lem block target hb ht =
      let n = blocks_from a a.next block target in
      let planned = plan_block_span_lem a.next block target is.cursor in
      elim (Bool-cases (n == 0)) [
        | inl e ↦ inl (
          ==→eq n 0 e,
          rw (ne→== block 0 (omega arith), ne→== target 0 (omega arith), planned, e),
        )
        | inr e ↦
            let inside = blocks_from_inside a a.next block target e in
            let positive : 0 < n * block = mul_pos n block (ground arith) hb in
            inr (
              ground arith,
              rw (
                ne→== block 0 (omega arith),
                ne→== target 0 (omega arith),
                planned,
                e,
                span_at-start is (aligned_from a a.next) (n * block) inside positive,
              ),
              IsArena-advance is _ inside,
            )
      ]
