-- ===== src/Arena/Concurrent/Rounds.antt =====
-- One round of a worker in a call of the lock-free loops of src/arena.rs: it ends the call, or a span that was
-- handed out meanwhile pays for it.
use orthotope.Prelude.{
  ℕ, ◌+◌, ◌≤◌, ◌≡◌, ◌≢◌, refl, ap, ◌⊎◌, inl, inr, true, false, none, some, List, [], ◌∷◌, length,
  ok, err, arith, ◌==◌, if◌then◌else◌, Bool-cases, Result-cases, ==→eq, eq→==,
}
use orthotope.Errors.{AllocError}
use orthotope.Arena.{Arena, span_at}
use orthotope.Arena.Concurrent.Progress.{Kept}
use orthotope.Arena.Concurrent.{
  Request, Worker, idle, starting, loaded, System, Event, calls, loads, exchanges, plan, move,
  commit, attempt, step,
}

-- A round with the cursor `current` that finds no room: nothing changes.
abbrev pub Refused : Request → ℕ → System → System → Type 0
Refused req current s s' =
    ((plan s.arena current req ≡ ok none) ⊎ ((e : AllocError) × (plan s.arena current req ≡ err e)))
    × (s'.arena ≡ s.arena)
    × (s'.log ≡ s.log)

-- A round that gets the span it planned: the cursor was still `current`, and is behind the span now.
abbrev pub Granted : Request → ℕ → System → System → Type 0
Granted req current s s' =
    (p : ℕ × ℕ × ℕ) × (plan s.arena current req ≡ ok (some p))
    × (s.arena.next ≡ current)
    × (s'.arena ≡ record (s.arena) { next = p.2 })
    × (s'.log ≡ span_at s.arena p.0 p.1 ∷ s.log)

-- The step ends the worker's call, by a refusal or by a grant.
abbrev pub EndsCall : ℕ → Request → System → System → Type 0
EndsCall i req s s' =
    (current : ℕ) × (s.workers i ≡ loaded req current)
    × (s'.workers i ≡ idle)
    × (Refused req current s s' ⊎ Granted req current s s')

-- One of the steps of the schedule ends the worker's call.
pub data Ends (i : ℕ) (req : Request) : System → List Event → Type 0 where
  now :
      {s : System} {e : Event} {es : List Event}
      → EndsCall i req s (step s e)
      → Ends i req s (e ∷ es)
  later :
      {s : System} {e : Event} {es : List Event} → Ends i req (step s e) es → Ends i req s (e ∷ es)

-- No exchange of the worker fails by chance.
abbrev pub Steady : ℕ → List Event → Type 0
Steady i [] = Unit {0}
Steady i (e ∷ es) = (e ≢ exchanges i true) × Steady i es

abbrev pub has_loaded : Worker → ℕ
has_loaded idle = 0
has_loaded (starting req) = 0
has_loaded (loaded req current) = 1

abbrev pub round_of : ℕ → Worker → Event → ℕ
round_of i w (calls j req) = 0
round_of i w (loads j) = 0
round_of i w (exchanges j spurious) = if j == i then has_loaded w else 0

-- How many rounds the worker comes to the exchange of
unfoldable pub rounds : ℕ → System → List Event → ℕ
rounds i s [] = 0
rounds i s (e ∷ es) = round_of i (s.workers i) e + rounds i (step s e) es

-- Whether the cursor is no longer what the worker read
abbrev pub stale : Worker → ℕ → ℕ
stale idle next = 0
stale (starting req) next = 0
stale (loaded req current) next = if next == current then 0 else 1

abbrev pub InCall : Request → Worker → Type 0
InCall req w = (w ≡ starting req) ⊎ ((current : ℕ) × (w ≡ loaded req current))

-- The round is paid for by a span that was handed out meanwhile.
abbrev pub Paid : ℕ → ℕ → System → System → Type 0
Paid i n s s' =
    n + length s.log + stale (s'.workers i) s'.arena.next
    ≤ length s'.log + stale (s.workers i) s.arena.next

pub stale-le : (w : Worker) (n : ℕ) → stale w n ≤ 1
stale-le idle n = omega arith
stale-le (starting req) n = omega arith
stale-le (loaded req current) n = ground arith

pub others-Paid : (i : ℕ) (s s' : System) → Kept s s' → s'.workers i ≡ s.workers i → Paid i 0 s s'
others-Paid i s s' (inl (a, l)) w =
    let same = ap (λ (x : Arena). x.next) a in rw (w, same) (omega (arith, ap length l))
others-Paid i s s' (inr l) w = omega (arith, stale-le (s'.workers i) s'.arena.next)

-- The ways a round goes
module _ (s : System) (i : ℕ) (req : Request) (current : ℕ) where
  attempt-err :
      (e : AllocError)
      → plan s.arena current req ≡ err e
      → attempt s i req current false ≡ move s i idle
  unfolding attempt
  attempt-err e eq = rw (attempt, eq) refl

  attempt-none : plan s.arena current req ≡ ok none → attempt s i req current false ≡ move s i idle
  unfolding attempt
  attempt-none eq = rw (attempt, eq) refl

  attempt-commit :
      (p : ℕ × ℕ × ℕ)
      → plan s.arena current req ≡ ok (some p)
      → (s.arena.next == current) ≡ true
      → attempt s i req current false ≡ commit s i p
  unfolding attempt
  attempt-commit p eq t = rw (attempt, eq, t) refl

  attempt-retry :
      (p : ℕ × ℕ × ℕ)
      → plan s.arena current req ≡ ok (some p)
      → (s.arena.next == current) ≡ false
      → attempt s i req current false ≡ move s i (starting req)
  unfolding attempt
  attempt-retry p eq f = rw (attempt, eq, f) refl

  moved_self : (w : Worker) → (move s i w).workers i ≡ w
  unfolding move
  moved_self w = rw (eq→== i i refl) refl

  abbrev pub tried : System
  tried = attempt s i req current false

  pub attempt-Paid :
      s.workers i ≡ loaded req current
      → EndsCall i req s tried ⊎ ((tried.workers i ≡ starting req) × Paid i 1 s tried)
  unfolding move commit
  attempt-Paid w = elim (Result-cases (plan s.arena current req)) [
    | inl (e, eq) ↦
        rw (attempt-err e eq) (inl (current, w, moved_self idle, inl (inr (e, eq), refl, refl)))
    | inr (none, eq) ↦
        rw (attempt-none eq) (inl (current, w, moved_self idle, inl (inl eq, refl, refl)))
    | inr (some p, eq) ↦ elim (Bool-cases (s.arena.next == current)) [
      | inl t ↦
          rw (attempt-commit p eq t) (
            inl
              (current, w, moved_self idle, inr (p, eq, ==→eq s.arena.next current t, refl, refl)))
      | inr f ↦
          rw (attempt-retry p eq f)
            (inr (moved_self (starting req), rw (moved_self (starting req), w, f) (omega arith)))
    ]
  ]
