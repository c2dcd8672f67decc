-- ===== src/Arena/Reserve.antt =====
-- `reserve_span` and `allocate_block` of src/arena.rs.
use native.Mathlib.Nat.{mod-eq_of_lt}
use native.Mathlib.Decide.{dec_le}
use orthotope.Prelude.{
  ℕ, ◌+◌, ◌-◌, ◌%◌, ◌≤◌, ◌<◌, ◌≡◌, some, ok, err, arith, leb, if◌then◌else◌, ap, le→leb, lt→leb,
  ne→==,
}
use orthotope.Prelude.Rounding.{IsRoundUp, round_up, round_up-IsRoundUp}
use orthotope.Prelude.Word.{usize_limit, wrapping_add}
use orthotope.Errors.{out_of_memory}
use orthotope.Arena.{Arena, align_up, plan_span, span_at, reserve_span}
use orthotope.Arena.Setup.{IsArena, align_up-some}

-- The next aligned offset at or after a cursor.
abbrev pub aligned_from : Arena → ℕ → ℕ
aligned_from a current = round_up current a.alignment

le_of_mod_zero : (b d : ℕ) → 0 < b → b % d ≡ 0 → d ≤ b
le_of_mod_zero b d pos e = elim (dec_le d b) [
  | yes h ↦ h
  | no h ↦ absurd (omega (arith, mod-eq_of_lt {n = b} {m = d} (omega arith)))
]

module _ {a : Arena} (is : IsArena a) where
  pub aligned_from-IsRoundUp :
      (current : ℕ) → IsRoundUp a.alignment current (aligned_from a current)
  aligned_from-IsRoundUp current = round_up-IsRoundUp current a.alignment is.alignment_pos

  -- No cursor inside the arena makes the alignment overflow.
  pub aligned_from_word : (current : ℕ) → current ≤ a.len → aligned_from a current < usize_limit
  aligned_from_word current h = omega (
    arith,
    aligned_from-IsRoundUp current,
    le_of_mod_zero a.base a.alignment is.base_pos is.base_aligned,
  )

  pub align_up-aligned_from :
      (current : ℕ) → current ≤ a.len → align_up current a.alignment ≡ some (aligned_from a current)
  align_up-aligned_from current h =
      align_up-some current a.alignment (omega (arith, is.space, is.base_pos))
        (aligned_from_word current h)

  -- One round plans the first aligned offset at or after the cursor, and refuses exactly when the
  -- span would end past the arena.
  pub plan_span_lem :
      (current size : ℕ)
      → current ≤ a.len
      → plan_span a current size ≡ (
          if leb (aligned_from a current + size) a.len
          then ok (aligned_from a current, aligned_from a current + size)
          else err (out_of_memory size (a.len - current)))
  unfolding plan_span
  plan_span_lem current size h = rw (align_up-aligned_from current h) (ground arith)

  -- A span inside the arena does not wrap.
  pub span_at-start :
      (offset size : ℕ)
      → offset + size ≤ a.len
      → 0 < size
      → span_at a offset size ≡ record { start = a.base + offset; size = size }
  span_at-start offset size h pos =
      ap (λ t. record { start = t; size = size }) {x = wrapping_add a.base offset}
        {y = a.base + offset} (omega (arith, is.space))

  -- The cursor may move forward to any offset inside.
  pub IsArena-advance : (end : ℕ) → end ≤ a.len → IsArena (record a { next = end })
  IsArena-advance end h = record {
    alignment_pos = is.alignment_pos;
    base_pos = is.base_pos;
    base_aligned = is.base_aligned;
    space = is.space;
    cursor = h;
  }

  -- In a usable arena, a reservation of at least one byte gets the first aligned offset that the
  -- cursor has not passed, if the span ends inside the arena: the cursor moves to its end,
  -- nothing else changes, and the arena stays usable. Otherwise it is refused with the bytes that
  -- are left.
  pub reserve_span_lem :
      (size : ℕ)
      → 0 < size
      → (aligned_from a a.next + size ≤ a.len
          → (reserve_span a size
              ≡ ok (
                record { start = a.base + aligned_from a a.next; size = size },
                record a { next = aligned_from a a.next + size },
              ))
            × IsArena (record a { next = aligned_from a a.next + size }))
        × (a.len < aligned_from a a.next + size
            → reserve_span a size ≡ err (out_of_memory size (a.len - a.next)))
  unfolding reserve_span
  reserve_span_lem size pos = (granted, refused)
    where
      planned : plan_span a a.next size ≡ (
          if leb (aligned_from a a.next + size) a.len
          then ok (aligned_from a a.next, aligned_from a a.next + size)
          else err (out_of_memory size (a.len - a.next)))
      planned = plan_span_lem a.next size is.cursor

      granted :
          aligned_from a a.next + size ≤ a.len
          → (reserve_span a size
              ≡ ok (
                record { start = a.base + aligned_from a a.next; size = size },
                record a { next = aligned_from a a.next + size },
              ))
            × IsArena (record a { next = aligned_from a a.next + size })
      granted h = (
        rw (
          ne→== size 0 (omega arith),
          planned,
          le→leb _ _ h,
          span_at-start (aligned_from a a.next) size h pos,
        ),
        IsArena-advance (aligned_from a a.next + size) h,
      )

      refused :
          a.len < aligned_from a a.next + size
          → reserve_span a size ≡ err (out_of_memory size (a.len - a.next))
      refused h = rw (ne→== size 0 (omega arith), planned, lt→leb _ _ h)
