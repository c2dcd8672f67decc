-- ===== src/Arena/Concurrent/Linear.antt =====
-- A call of the lock-free loops of src/arena.rs that no other worker meets is one call of the sequential
-- `reserve_span` or `reserve_block_span`.
use orthotope.Prelude.{
  ℕ, ◌≡◌, refl, ◌∙◌, true, false, Option, none, some, List, [], ◌∷◌, Result, ok, err, ◌>>=◌, arith,
  ◌==◌, if◌then◌else◌, Bool-cases, inl, inr, eq→==,
}
use orthotope.Errors.{AllocError}
use orthotope.Arena.{Arena, ReservedSpan, reserve_span, reserve_block_span}
use orthotope.Arena.Concurrent.{
  Request, span, blocks, idle, starting, loaded, System, Event, calls, loads, exchanges, is_zero,
  plan, move, attempt, worker_calls, step, run,
}

-- The sequential call of a request
abbrev pub serve : Arena → Request → Result AllocError (Option ReservedSpan × Arena)
serve a (span size) = do (t, a') ← reserve_span a size; ok (some t, a')
serve a (blocks block_size target_blocks) = reserve_block_span a block_size target_blocks

-- The arena and the log after the sequential call
abbrev pub served :
    System → Result AllocError (Option ReservedSpan × Arena) → Arena × List ReservedSpan
served s (err e) = (s.arena, s.log)
served s (ok (none, a)) = (a, s.log)
served s (ok (some t, a)) = (a, t ∷ s.log)

-- A round in which the cursor is what the worker read, and the exchange does not fail by chance
attempt-arena :
    (u : System) (i : ℕ) (req : Request)
    → is_zero req ≡ false
    → (attempt u i req u.arena.next false).arena ≡ (served u (serve u.arena req)).0
unfolding attempt plan is_zero reserve_span reserve_block_span
attempt-arena u i (span size) z = ground arith
attempt-arena u i (blocks block_size target_blocks) z = ground arith

attempt-log :
    (u : System) (i : ℕ) (req : Request)
    → is_zero req ≡ false
    → (attempt u i req u.arena.next false).log ≡ (served u (serve u.arena req)).1
unfolding attempt plan is_zero reserve_span reserve_block_span
attempt-log u i (span size) z = ground arith
attempt-log u i (blocks block_size target_blocks) z = ground arith

attempt-workers :
    (u : System) (i : ℕ) (req : Request) (j : ℕ)
    → (attempt u i req u.arena.next false).workers j ≡ (if j == i then idle else u.workers j)
unfolding attempt
attempt-workers u i req j = ground arith

-- The early return of both functions
zero-served :
    (s : System) (req : Request)
    → is_zero req ≡ true
    → served s (serve s.arena req) ≡ (s.arena, s.log)
unfolding is_zero reserve_span reserve_block_span
zero-served s (span size) z = rw z refl
zero-served s (blocks block_size target_blocks) z = rw z refl

-- The steps of a call that is not refused at once
called : System → ℕ → Request → System
called s i req = move (move s i (starting req)) i (loaded req s.arena.next)

-- A call, its load and its exchange, and no other step
abbrev pub alone : ℕ → Request → List Event
alone i req = calls i req ∷ loads i ∷ exchanges i false ∷ []

run-alone :
    (s : System) (i : ℕ) (req : Request)
    → s.workers i ≡ idle
    → is_zero req ≡ false
    → run s (alone i req) ≡ attempt (called s i req) i req s.arena.next false
unfolding run step worker_calls called move
run-alone s i req w z = rw (w, z, eq→== i i refl, eq→== i i refl) refl

run-alone_zero :
    (s : System) (i : ℕ) (req : Request)
    → s.workers i ≡ idle
    → is_zero req ≡ true
    → run s (alone i req) ≡ s
unfolding run step worker_calls
run-alone_zero s i req w z = rw (w, z, w, w) refl

-- A worker that is in no call makes one, of either kind and of any size, zero included; it loads the
-- cursor and tries the exchange, no other worker moves meanwhile, and the exchange does not fail by
-- chance. Then the arena and the log of spans are those of the sequential call: after a grant its arena
-- and its span in front of the log, after a refusal the same as before. The call is over: every worker is
-- where it was, and this one is in no call.
pub run-alone-serve :
    (s : System) (i : ℕ) (req : Request)
    → s.workers i ≡ idle
    → ((run s (alone i req)).arena ≡ (served s (serve s.arena req)).0)
      × ((run s (alone i req)).log ≡ (served s (serve s.arena req)).1)
      × ((run s (alone i req)).workers i ≡ idle)
      × ((j : ℕ) → (run s (alone i req)).workers j ≡ s.workers j)
unfolding called move
run-alone-serve s i req w = elim (Bool-cases (is_zero req)) [
  | inl z ↦ rw (run-alone_zero s i req w z, zero-served s req z) (refl, refl, w, λ j. refl)
  | inr z ↦
      let u = called s i req in
      let workers_at = attempt-workers u i req in
      rw (run-alone s i req w z) (
        attempt-arena u i req z,
        attempt-log u i req z,
        workers_at i ∙ ground arith,
        λ j. workers_at j ∙ ground arith,
      )
]
