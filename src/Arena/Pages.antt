-- ===== src/Arena/Pages.antt =====
-- The whole pages inside a span, for lazy reclaim (src/arena.rs).
use native.Mathlib.Nat.{mod_self}
use orthotope.Prelude.{
  ℕ, ◌+◌, ◌-◌, ◌%◌, ◌≤◌, ◌<◌, ◌≡◌, ◌⊎◌, inl, inr, none, some, arith, ◌==◌, ltb, leb, lt→ltb,
  Bool-cases, ==→eq, leb→le,
}
use orthotope.Prelude.Rounding.{
  round_up, round_up-IsRoundUp, round_up_least, round_down, round_down_greatest, add-mod_zero,
  sub-mod_zero,
}
use orthotope.Prelude.Word.{usize_limit}
use orthotope.Arena.{align_down, page_aligned_inner_range}
use orthotope.Arena.Setup.{align_up-round_up, align_down-IsRoundDown}

-- `page` begins a whole page that lies inside the span.
abbrev pub IsInnerPage : (page_size start len page : ℕ) → Type 0
IsInnerPage page_size start len page =
    (page % page_size ≡ 0) × (start ≤ page) × (page + page_size ≤ start + len)

module _ (page_size start len : ℕ) (pos : 0 < page_size) where
  -- An inner page lies between the rounded ends.
  inner_between :
      (page : ℕ)
      → IsInnerPage page_size start len page
      → (round_up start page_size ≤ page) × (page + page_size ≤ align_down (start + len) page_size)
  unfolding align_down
  inner_between page (grid, low, high) = (
    round_up_least page_size start (round_up start page_size) page pos
        (round_up-IsRoundUp start page_size pos) grid low,
    round_down_greatest page_size (start + len) _ (page + page_size) pos
        (round_down (start + len) page_size pos)
        (add-mod_zero page_size page page_size grid (mod_self page_size)) high,
  )

-- The range of a span that ends inside the address space covers exactly its whole pages: it begins
-- and ends on page boundaries inside the span, and every inner page lies in it; and there is no range
-- exactly when the span has no inner page.
pub inner_range_exact :
    (page_size start len : ℕ)
    → 0 < page_size
    → start + len < usize_limit
    → ((page_aligned_inner_range page_size start len ≡ none)
        × ((page : ℕ) → ¬ IsInnerPage page_size start len page))
      ⊎ ((addr size : ℕ) × (page_aligned_inner_range page_size start len ≡ some (addr, size))
          × (addr % page_size ≡ 0)
          × (size % page_size ≡ 0)
          × (0 < size)
          × (start ≤ addr)
          × (addr + size ≤ start + len)
          × ((page : ℕ)
              → IsInnerPage page_size start len page
              → (addr ≤ page) × (page + page_size ≤ addr + size)))
unfolding page_aligned_inner_range
inner_range_exact page_size start len pos word =
    let up = round_up-IsRoundUp start page_size pos in
    let down = align_down-IsRoundDown (start + len) page_size pos in
    let between = inner_between page_size start len pos in
    let r = round_up start page_size in
    let d = align_down (start + len) page_size in
    elim (Bool-cases (len == 0)) [
      | inl e ↦ inl (rw e, λ p q. omega (arith, ==→eq len 0 e, q))
      | inr e ↦ elim (Bool-cases (ltb r usize_limit)) [
        | inr far ↦ inl (
          rw (
            e,
            lt→ltb (start + len) usize_limit word,
            align_up-round_up start page_size (omega arith),
            far,
          ),
          λ p q. ground (arith, between p q),
        )
        | inl near ↦ elim (Bool-cases (leb d r)) [
          | inl empty ↦ inl (
            rw (
              e,
              lt→ltb (start + len) usize_limit word,
              align_up-round_up start page_size (omega arith),
              near,
              empty,
            ),
            λ p q. omega (arith, between p q, leb→le _ _ empty),
          )
          | inr some_page ↦
              let wide : r < d = ground arith in
              inr (
                r,
                d - r,
                rw (
                  e,
                  lt→ltb (start + len) usize_limit word,
                  align_up-round_up start page_size (omega arith),
                  near,
                  some_page,
                ),
                up.0,
                sub-mod_zero page_size d r pos down.0 up.0,
                omega arith,
                up.1,
                omega (arith, down.1),
                λ p q. omega (arith, between p q),
              )
        ]
      ]
    ]
