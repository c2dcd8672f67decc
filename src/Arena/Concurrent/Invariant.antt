-- ===== src/Arena/Concurrent/Invariant.antt =====
-- What every step of the loops of src/arena.rs keeps.
use orthotope.Prelude.{
  ℕ, ◌+◌, ◌*◌, ◌%◌, ◌≤◌, ◌<◌, ◌≡◌, refl, inl, inr, Bool, true, false, not, ◌&&◌, Option, none, some,
  List, [], ◌∷◌, Result, ok, err, arith, ◌==◌, if◌then◌else◌, Bool-cases, leb, leb→le, subst,
}
use orthotope.Prelude.Rounding.{add-mod_zero}
use orthotope.Prelude.Word.{wrapping_add}
use orthotope.Errors.{AllocError}
use orthotope.Arena.{Arena, ReservedSpan}
use orthotope.Arena.Setup.{IsArena}
use orthotope.Arena.Reserve.{aligned_from, aligned_from-IsRoundUp, plan_span_lem, IsArena-advance}
use orthotope.Arena.Blocks.{blocks_from, plan_block_span_lem, blocks_from_inside, mul_pos}
use orthotope.Arena.Concurrent.{
  Request, span, blocks, Worker, idle, starting, loaded, System, Event, calls, loads, exchanges,
  is_zero, plan, move, commit, attempt, worker_calls, worker_loads, worker_exchanges, step, run,
  init,
}

-- A plan from the cursor itself: an aligned, non-empty span behind the cursor, inside the arena.
pub record IsPlan (a : Arena) (p : ℕ × ℕ × ℕ) : Type 0 where
  pub aligned : p.0 % a.alignment ≡ 0
  pub behind : a.next ≤ p.0
  pub positive : 0 < p.1
  pub ends : p.2 ≡ p.0 + p.1
  pub inside : p.2 ≤ a.len

plan-IsPlan :
    {a : Arena} (is : IsArena a) (req : Request) (p : ℕ × ℕ × ℕ)
    → is_zero req ≡ false
    → plan a a.next req ≡ ok (some p)
    → IsPlan a p
unfolding plan is_zero
plan-IsPlan {a} is (span size) p pos e =
    let r = aligned_from a a.next in
    let up = aligned_from-IsRoundUp is a.next in
    let planned = plan_span_lem is a.next size is.cursor in
    elim (Bool-cases (leb (r + size) a.len)) [
      | inl t ↦ subst (IsPlan a) {x = (r, size, r + size)} (ground (arith, planned)) (record {
        aligned = up.0;
        behind = up.1;
        positive = ground arith;
        ends = refl;
        inside = leb→le _ _ t;
      })
      | inr f ↦ absurd (ground (arith, planned))
    ]
plan-IsPlan {a} is (blocks block target) p pos e =
    let r = aligned_from a a.next in
    let n = blocks_from a a.next block target in
    let up = aligned_from-IsRoundUp is a.next in
    let planned = plan_block_span_lem is a.next block target is.cursor in
    elim (Bool-cases (n == 0)) [
      | inl t ↦ absurd (ground (arith, planned))
      | inr f ↦
          subst (IsPlan a) {x = (r, n * block, r + n * block)} (ground (arith, planned)) (record {
            aligned = up.0;
            behind = up.1;
            positive = mul_pos n block (ground arith) (ground arith);
            ends = refl;
            inside = blocks_from_inside a a.next block target f;
          })
    ]

-- The spans of a log, newest first, each behind the next one: aligned, not empty, and from the floor
-- up to the bound.
abbrev pub Stacked : (alignment floor bound : ℕ) → List ReservedSpan → Type 0
Stacked alignment floor bound [] = floor ≤ bound
Stacked alignment floor bound (s ∷ log) =
    (s.start % alignment ≡ 0)
    × (0 < s.size)
    × (s.start + s.size ≤ bound)
    × Stacked alignment floor s.start log

pub Stacked-mono :
    (al floor low high : ℕ) (log : List ReservedSpan)
    → low ≤ high
    → Stacked al floor low log
    → Stacked al floor high log
Stacked-mono al floor low high [] h st = omega arith
Stacked-mono al floor low high (s ∷ log) h st = (st.0, st.1, omega arith, st.3)

-- A worker in a call has passed the test for zero.
abbrev pub IsCalling : Worker → Type 0
IsCalling idle = Unit {0}
IsCalling (starting req) = is_zero req ≡ false
IsCalling (loaded req current) = is_zero req ≡ false

-- The state after a run that began with the arena `a`: only the cursor moves, and the spans lie
-- between where it was and where it is.
pub record Inv (a : Arena) (s : System) : Type 0 where
  pub arena : IsArena s.arena
  pub same : (s.arena.base ≡ a.base) × (s.arena.len ≡ a.len) × (s.arena.alignment ≡ a.alignment)
  pub stacked : Stacked a.alignment (a.base + a.next) (a.base + s.arena.next) s.log
  pub calling : (j : ℕ) → IsCalling (s.workers j)

IsCalling-if :
    (b : Bool) (w v : Worker) → IsCalling w → IsCalling v → IsCalling (if b then w else v)
IsCalling-if true w v cw cv = cw
IsCalling-if false w v cw cv = cv

module _ (a : Arena) where
  move-Inv : (s : System) (i : ℕ) (w : Worker) → Inv a s → IsCalling w → Inv a (move s i w)
  unfolding move
  move-Inv s i w v c = record {
    arena = v.arena;
    same = v.same;
    stacked = v.stacked;
    calling = λ j. IsCalling-if (j == i) w (s.workers j) c (v.calling j);
  }

  commit-Inv :
      (s : System) (i : ℕ) (p : ℕ × ℕ × ℕ) → Inv a s → IsPlan s.arena p → Inv a (commit s i p)
  unfolding commit
  commit-Inv s i (aligned, size, end) v p = record {
    arena = IsArena-advance v.arena end p.inside;
    same = v.same;
    stacked = rw start (
      subst (λ t. (a.base + aligned) % t ≡ 0) v.same.2 grid,
      p.positive,
      omega (arith, p.ends),
      Stacked-mono a.alignment (a.base + a.next) (a.base + s.arena.next) (a.base + aligned) s.log
          (omega (arith, p.behind)) v.stacked,
    );
    calling = λ j. IsCalling-if (j == i) idle (s.workers j) tt (v.calling j);
  }
    where
      start : wrapping_add s.arena.base aligned ≡ a.base + aligned
      start = omega (arith, p.ends, p.inside, p.positive, v.arena.space, v.same)

      grid : (a.base + aligned) % s.arena.alignment ≡ 0
      grid =
          add-mod_zero s.arena.alignment a.base aligned
            (subst (λ t. t % s.arena.alignment ≡ 0) v.same.0 v.arena.base_aligned) p.aligned

  attempt-Inv :
      (s : System) (i : ℕ) (req : Request) (current : ℕ) (spurious : Bool)
      → Inv a s
      → is_zero req ≡ false
      → Inv a (attempt s i req current spurious)
  unfolding attempt
  attempt-Inv s i req current spurious v pos = go (plan s.arena current req) refl
    where
      go :
          (r : Result AllocError (Option (ℕ × ℕ × ℕ)))
          → plan s.arena current req ≡ r
          → Inv a (elim r [
            | err e ↦ move s i idle
            | ok none ↦ move s i idle
            | ok (some found) ↦
                if (s.arena.next == current) && not spurious
                then commit s i found
                else move s i (starting req)
          ])
      go (err e) eq = move-Inv s i idle v tt
      go (ok none) eq = move-Inv s i idle v tt
      go (ok (some found)) eq = elim (Bool-cases ((s.arena.next == current) && not spurious)) [
        | inl t ↦
            let unmoved : current ≡ s.arena.next = ground arith in
            let planned = subst (λ c. plan s.arena c req ≡ ok (some found)) unmoved eq in
            rw t (commit-Inv s i found v (plan-IsPlan v.arena req found pos planned))
        | inr f ↦ rw f (move-Inv s i (starting req) v pos)
      ]

  worker_calls-Inv :
      (s : System) (i : ℕ) (req : Request) (w : Worker) → Inv a s → Inv a (worker_calls s i req w)
  unfolding worker_calls
  worker_calls-Inv s i req idle v = elim (Bool-cases (is_zero req)) [
    | inl z ↦ rw z v
    | inr z ↦ rw z (move-Inv s i (starting req) v z)
  ]
  worker_calls-Inv s i req _ v = v

  worker_loads-Inv :
      (s : System) (i : ℕ) (w : Worker) → Inv a s → IsCalling w → Inv a (worker_loads s i w)
  unfolding worker_loads
  worker_loads-Inv s i (starting req) v c = move-Inv s i (loaded req s.arena.next) v c
  worker_loads-Inv s i _ v c = v

  worker_exchanges-Inv :
      (s : System) (i : ℕ) (spurious : Bool) (w : Worker)
      → Inv a s
      → IsCalling w
      → Inv a (worker_exchanges s i spurious w)
  unfolding worker_exchanges
  worker_exchanges-Inv s i spurious (loaded req current) v c =
      attempt-Inv s i req current spurious v c
  worker_exchanges-Inv s i spurious _ v c = v

  step-Inv : (s : System) (e : Event) → Inv a s → Inv a (step s e)
  unfolding step
  step-Inv s (calls i req) v = worker_calls-Inv s i req (s.workers i) v
  step-Inv s (loads i) v = worker_loads-Inv s i (s.workers i) v (v.calling i)
  step-Inv s (exchanges i spurious) v =
      worker_exchanges-Inv s i spurious (s.workers i) v (v.calling i)

  pub run-Inv : (s : System) (es : List Event) → Inv a s → Inv a (run s es)
  unfolding run
  run-Inv s [] v = v
  run-Inv s (e ∷ es) v = run-Inv (step s e) es (step-Inv s e v)

pub init-Inv : (a : Arena) → IsArena a → Inv a (init a)
unfolding init
init-Inv a is = record {
  arena = is;
  same = (refl, refl, refl);
  stacked = omega arith;
  calling = λ j. tt;
}
