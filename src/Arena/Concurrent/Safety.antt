-- ===== src/Arena/Concurrent/Safety.antt =====
-- In every interleaving of the loops of src/arena.rs the spans that are handed out are apart.
use orthotope.Prelude.{
  ℕ, zero, suc, ◌+◌, ◌%◌, ◌≤◌, ◌<◌, ◌≡◌, refl, ap, ◌≢◌, ◌⊎◌, inl, inr, some, List, [], ◌∷◌, arith,
  get_elem?, subst,
}
use orthotope.Arena.{Arena, ReservedSpan}
use orthotope.Arena.Setup.{IsArena}
use orthotope.Arena.Concurrent.Invariant.{Stacked, run-Inv, init-Inv}
use orthotope.Arena.Concurrent.{Event, run, init}

abbrev pub Apart : ReservedSpan → ReservedSpan → Type 0
Apart s t = (s.start + s.size ≤ t.start) ⊎ (t.start + t.size ≤ s.start)

Stacked-floor :
    (al floor bound : ℕ) (log : List ReservedSpan) → Stacked al floor bound log → floor ≤ bound
Stacked-floor al floor bound [] st = st
Stacked-floor al floor bound (x ∷ log) st = omega (arith, Stacked-floor al floor x.start log st.3)

Stacked-at :
    (al floor bound : ℕ) (log : List ReservedSpan) (i : ℕ) (t : ReservedSpan)
    → Stacked al floor bound log
    → get_elem? log i ≡ some t
    → (t.start % al ≡ 0) × (0 < t.size) × (floor ≤ t.start) × (t.start + t.size ≤ bound)
Stacked-at al floor bound [] i t st e = absurd (cc)
Stacked-at al floor bound (x ∷ log) zero t st e =
    subst (λ r. (r.start % al ≡ 0) × (0 < r.size) × (floor ≤ r.start) × (r.start + r.size ≤ bound))
      {x = x} {y = t} (ground arith) (st.0, st.1, Stacked-floor al floor x.start log st.3, st.2)
Stacked-at al floor bound (x ∷ log) (suc i) t st e =
    let (grid, pos, low, high) = Stacked-at al floor x.start log i t st.3 e in
    (grid, pos, low, omega arith)

Stacked-Apart :
    (al floor bound : ℕ) (log : List ReservedSpan) (i j : ℕ) (s t : ReservedSpan)
    → Stacked al floor bound log
    → get_elem? log i ≡ some s
    → get_elem? log j ≡ some t
    → i ≢ j
    → Apart s t
Stacked-Apart al floor bound [] i j s t st es et ne = absurd (cc)
Stacked-Apart al floor bound (x ∷ log) zero zero s t st es et ne = absurd (ne refl)
Stacked-Apart al floor bound (x ∷ log) zero (suc j) s t st es et ne =
    inr (ground (arith, Stacked-at al floor x.start log j t st.3 et))
Stacked-Apart al floor bound (x ∷ log) (suc i) zero s t st es et ne =
    inl (ground (arith, Stacked-at al floor x.start log i s st.3 es))
Stacked-Apart al floor bound (x ∷ log) (suc i) (suc j) s t st es et ne =
    Stacked-Apart al floor x.start log i j s t st.3 es et (λ e. ne (ap suc e))

-- From a usable arena with all workers idle, whatever the schedule: every span that was handed
-- out is aligned (its start is a multiple of the alignment), not empty, begins at or after the
-- initial cursor and ends inside the arena, and any two of them do not overlap.
pub run-Apart :
    (a : Arena) (es : List Event)
    → IsArena a
    → ((i : ℕ) (t : ReservedSpan)
        → get_elem? (run (init a) es).log i ≡ some t
        → (t.start % a.alignment ≡ 0)
          × (0 < t.size)
          × (a.base + a.next ≤ t.start)
          × (t.start + t.size ≤ a.base + a.len))
      × ((i j : ℕ) (s t : ReservedSpan)
          → get_elem? (run (init a) es).log i ≡ some s
          → get_elem? (run (init a) es).log j ≡ some t
          → i ≢ j
          → Apart s t)
run-Apart a es is =
    let v = run-Inv a (init a) es (init-Inv a is) in
    let bound = a.base + (run (init a) es).arena.next in
    (
      λ i t e.
          let (grid, pos, low, high) =
            Stacked-at a.alignment (a.base + a.next) bound _ i t v.stacked e in
          (grid, pos, low, omega (arith, v.arena.cursor, v.same)),
      λ i j s t e f ne.
          Stacked-Apart a.alignment (a.base + a.next) bound _ i j s t v.stacked e f ne,
    )
