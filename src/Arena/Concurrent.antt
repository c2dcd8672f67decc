-- ===== src/Arena/Concurrent.antt =====
-- The lock-free loops of src/arena.rs under concurrency: each worker reads the cursor, plans a span
-- from what it read, and exchanges the cursor only if it is still the same. A schedule says which
-- worker moves next. `compare_exchange_weak` may fail although the cursor is unchanged, which the
-- schedule decides too.
pub mod Invariant
pub mod Safety
pub mod Linear
pub mod Progress
pub mod Rounds
pub mod Liveness
use orthotope.Prelude.{
  ℕ, ◌+◌, Bool, not, ◌&&◌, ◌||◌, Option, none, some, List, [], ◌∷◌, Result, ok, err, ◌>>=◌, ◌==◌,
  if◌then◌else◌,
}
use orthotope.Errors.{AllocError}
use orthotope.Arena.{Arena, ReservedSpan, plan_span, plan_block_span, span_at}

-- A call of `reserve_span` or of `reserve_block_span`.
pub data Request : Type 0 where
  span : (size : ℕ) → Request
  blocks : (block_size target_blocks : ℕ) → Request

-- Not in a call; at the top of the loop; after the load that read `current`.
pub data Worker : Type 0 where
  idle : Worker
  starting : Request → Worker
  loaded : Request → (current : ℕ) → Worker

pub record System : Type 0 where
  pub arena : Arena
  pub workers : ℕ → Worker
  pub log : List ReservedSpan

pub data Event : Type 0 where
  calls : (worker : ℕ) → Request → Event
  loads : (worker : ℕ) → Event
  exchanges : (worker : ℕ) (fails_spuriously : Bool) → Event

-- The early return of both functions.
unfoldable pub is_zero : Request → Bool
is_zero (span size) = size == 0
is_zero (blocks block_size target_blocks) = (block_size == 0) || (target_blocks == 0)

-- What a round plans: an offset, a size and an end, no span, or an error.
unfoldable pub plan : Arena → ℕ → Request → Result AllocError (Option (ℕ × ℕ × ℕ))
plan a current (span size) = do
  (aligned, end) ← plan_span a current size
  ok (some (aligned, size, end))
plan a current (blocks block_size target_blocks) =
    plan_block_span a current block_size target_blocks

unfoldable pub move : System → ℕ → Worker → System
move s i w = record s { workers = λ j. if j == i then w else s.workers j }

-- The exchange succeeds: the cursor moves and the span is handed out.
unfoldable pub commit : System → ℕ → ℕ × ℕ × ℕ → System
commit s i (aligned, size, end) = record {
  arena = record (s.arena) { next = end };
  workers = λ j. if j == i then idle else s.workers j;
  log = span_at s.arena aligned size ∷ s.log;
}

-- The rest of a round after the load: the call ends without a span, or the exchange is tried, and on
-- failure the loop starts again.
unfoldable pub attempt : System → ℕ → Request → ℕ → Bool → System
unfolding plan move commit
attempt s i req current spurious = elim (plan s.arena current req) [
  | err e ↦ move s i idle
  | ok none ↦ move s i idle
  | ok (some found) ↦
      if (s.arena.next == current) && not spurious
      then commit s i found
      else move s i (starting req)
]

-- A worker that is not at that place of its loop does nothing.
unfoldable pub worker_calls : System → ℕ → Request → Worker → System
unfolding move is_zero
worker_calls s i req idle = if is_zero req then s else move s i (starting req)
worker_calls s i req _ = s

unfoldable pub worker_loads : System → ℕ → Worker → System
unfolding move
worker_loads s i (starting req) = move s i (loaded req s.arena.next)
worker_loads s i _ = s

unfoldable pub worker_exchanges : System → ℕ → Bool → Worker → System
unfolding attempt
worker_exchanges s i spurious (loaded req current) = attempt s i req current spurious
worker_exchanges s i spurious _ = s

unfoldable pub step : System → Event → System
unfolding worker_calls worker_loads worker_exchanges
step s (calls i req) = worker_calls s i req (s.workers i)
step s (loads i) = worker_loads s i (s.workers i)
step s (exchanges i spurious) = worker_exchanges s i spurious (s.workers i)

unfoldable pub run : System → List Event → System
unfolding step
run s [] = s
run s (e ∷ es) = run (step s e) es

unfoldable pub init : Arena → System
init a = record { arena = a; workers = λ _. idle; log = [] }
