-- ===== src/Arena/Concurrent/Progress.antt =====
-- What one step of the lock-free loops of src/arena.rs leaves alone.
use orthotope.Prelude.{ℕ, ◌<◌, ◌≡◌, ◌≢◌, ◌⊎◌, Bool, length, arith}
use orthotope.Arena.Concurrent.{
  Request, System, Event, calls, loads, exchanges, move, commit, attempt, worker_calls,
  worker_loads, worker_exchanges, step,
}

abbrev pub worker_of : Event → ℕ
worker_of (calls i req) = i
worker_of (loads i) = i
worker_of (exchanges i spurious) = i

-- Nothing was handed out and the cursor is the same, or a span was handed out.
abbrev pub Kept : System → System → Type 0
Kept s s' = ((s'.arena ≡ s.arena) × (s'.log ≡ s.log)) ⊎ (length s.log < length s'.log)

attempt-Kept :
    (s : System) (i : ℕ) (req : Request) (current : ℕ) (spurious : Bool)
    → Kept s (attempt s i req current spurious)
unfolding attempt move commit
attempt-Kept s i req current spurious = ground arith

attempt-others :
    (s : System) (i : ℕ) (req : Request) (current : ℕ) (spurious : Bool) (j : ℕ)
    → i ≢ j
    → (attempt s i req current spurious).workers j ≡ s.workers j
unfolding attempt move commit
attempt-others s i req current spurious j ne = ground arith

pub step-Kept : (s : System) (e : Event) → Kept s (step s e)
unfolding step worker_calls worker_loads worker_exchanges move
step-Kept s (calls i req) = ground arith
step-Kept s (loads i) = ground arith
step-Kept s (exchanges i spurious) =
    ground (arith, λ (req : Request) (current : ℕ). attempt-Kept s i req current spurious)

pub step-others :
    (s : System) (e : Event) (j : ℕ) → worker_of e ≢ j → (step s e).workers j ≡ s.workers j
unfolding step worker_calls worker_loads worker_exchanges move
step-others s (calls i req) j ne = ground arith
step-others s (loads i) j ne = ground arith
step-others s (exchanges i spurious) j ne = ground arith
