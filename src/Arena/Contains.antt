-- ===== src/Arena/Contains.antt =====
-- The arena recognises the blocks that it handed out (src/arena.rs).
use native.Mathlib.Decide.{dec_le}
use orthotope.Prelude.{
  ℕ, ◌+◌, ◌-◌, ◌≤◌, ◌<◌, ◌≡◌, refl, true, ok, ok-injective, arith, le→leb, lt→ltb, eq→==, subst,
  sym, ◌∙◌,
}
use orthotope.Arena.{Arena, allocate_block, contains_block_start, remaining}
use orthotope.Arena.Setup.{IsArena}
use orthotope.Arena.Reserve.{aligned_from, aligned_from-IsRoundUp, reserve_span_lem}

-- A start and an arena as the theorem below describes them
abbrev Recognised : Arena → (size next : ℕ) → ℕ × Arena → Type 0
Recognised a size next r =
    (contains_block_start (record (r.1) { next = next }) r.0 ≡ true)
    × (remaining (r.1) + size ≤ remaining a)

recognised :
    (a : Arena) (size next : ℕ)
    → IsArena a
    → 0 < size
    → aligned_from a a.next + size ≤ a.len
    → Recognised a size next
        (a.base + aligned_from a a.next, record a { next = aligned_from a a.next + size })
unfolding contains_block_start remaining
recognised a size next is pos fits =
    let up = aligned_from-IsRoundUp is a.next in
    let back : a.base + aligned_from a a.next - a.base ≡ aligned_from a a.next = omega arith in
    (
      rw
          (
            back,
            le→leb a.base (a.base + aligned_from a a.next) (omega arith),
            lt→ltb (a.base + aligned_from a a.next) (a.base + a.len) (omega arith),
            eq→== _ 0 up.0,
          )
          refl,
      omega arith,
    )

-- A block of at least one byte that is allocated in a usable arena begins on the arena's grid
-- inside it, so the arena recognises its start, then and after any further move of the cursor;
-- the bytes that are left shrink by at least its size.
pub contains-allocate_block :
    (a a' : Arena) (size start next : ℕ)
    → IsArena a
    → 0 < size
    → allocate_block a size ≡ ok (start, a')
    → (contains_block_start (record a' { next = next }) start ≡ true)
      × (remaining a' + size ≤ remaining a)
unfolding allocate_block contains_block_start remaining
contains-allocate_block a a' size start next is pos done =
    let (granted, refused) = reserve_span_lem is size pos in
    elim (dec_le (aligned_from a a.next + size) a.len) [
      | yes fits ↦
          subst (Recognised a size next)
            {x = (a.base + aligned_from a a.next, record a { next = aligned_from a a.next + size })}
            {y = (start, a')} (ok-injective _ _ (sym (rw (granted fits).0 refl) ∙ done))
            (recognised a size next is pos fits)
      | no full ↦ absurd (ground (arith, refused (omega arith)))
    ]
