-- ===== src/Arena/Concurrent/Liveness.antt =====
-- Every call of the lock-free loops of src/arena.rs ends after a bounded number of rounds, whatever the
-- other workers do.
use orthotope.Prelude.{
  ℕ, ◌+◌, ◌≤◌, ◌<◌, ◌≡◌, ◌≢◌, refl, ap, sym, subst, ◌⊎◌, inl, inr, true, false, List, [], ◌∷◌, ◌++◌,
  length, arith, ◌==◌, Bool-cases, ==→eq, eq→==,
}
use orthotope.Arena.{Arena, ReservedSpan, remaining}
use orthotope.Arena.Setup.{IsArena}
use orthotope.Arena.Concurrent.Invariant.{Stacked, run-Inv, init-Inv}
use orthotope.Arena.Concurrent.Progress.{worker_of, step-Kept, step-others}
use orthotope.Arena.Concurrent.Rounds.{
  EndsCall, Ends, now, later, Steady, rounds, round_of, stale, InCall, Paid, others-Paid,
  attempt-Paid, tried,
}
use orthotope.Arena.Concurrent.{
  Request, starting, System, Event, calls, loads, exchanges, move, worker_calls, worker_loads,
  worker_exchanges, step, run, init,
}

-- A step of a worker in a call ends the call, or the worker is in the call still and the round that the step
-- closes, if it closes one, is paid for.
Goes : ℕ → Request → System → Event → Type 0
Goes i req s e =
    EndsCall i req s (step s e)
    ⊎ (InCall req ((step s e).workers i) × Paid i (round_of i (s.workers i) e) s (step s e))

other-Goes :
    (i : ℕ) (req : Request) (s : System) (e : Event)
    → worker_of e ≢ i
    → round_of i (s.workers i) e ≡ 0
    → InCall req (s.workers i)
    → Goes i req s e
unfolding Goes
other-Goes i req s e ne no_round in_call =
    let same = step-others s e i ne in
    inr (
      subst (InCall req) (sym same) in_call,
      rw no_round (others-Paid i s (step s e) (step-Kept s e) same),
    )

own_calls :
    (i : ℕ) (req other : Request) (s : System)
    → InCall req (s.workers i)
    → Goes i req s (calls i other)
unfolding Goes step worker_calls
own_calls i req other s (inl w) = rw w (inr (inl w, rw w (omega arith)))
own_calls i req other s (inr (c, w)) = rw w (inr (inr (c, w), rw w (omega arith)))

own_loads : (i : ℕ) (req : Request) (s : System) → InCall req (s.workers i) → Goes i req s (loads i)
unfolding Goes step worker_loads move
own_loads i req s (inl w) =
    rw (w, eq→== i i refl)
      (inr (inr (s.arena.next, refl), rw (eq→== s.arena.next s.arena.next refl) (omega arith)))
own_loads i req s (inr (c, w)) = rw w (inr (inr (c, w), rw w (omega arith)))

own_exchanges :
    (i : ℕ) (req : Request) (s : System)
    → InCall req (s.workers i)
    → Goes i req s (exchanges i false)
unfolding Goes step worker_exchanges
own_exchanges i req s (inl w) = rw (w, eq→== i i refl) (inr (inl w, rw w (omega arith)))
own_exchanges i req s (inr (c, w)) =
    let one : round_of i (s.workers i) (exchanges i false) ≡ 1 = rw (w, eq→== i i refl) refl in
    let tries : worker_exchanges s i false (s.workers i) ≡ tried s i req c = rw w refl in
    subst
      (λ (n : ℕ).
        EndsCall i req s (worker_exchanges s i false (s.workers i))
        ⊎ (InCall req ((worker_exchanges s i false (s.workers i)).workers i)
            × Paid i n s (worker_exchanges s i false (s.workers i))))
      (sym one)
      (subst (λ s'. EndsCall i req s s' ⊎ (InCall req (s'.workers i) × Paid i 1 s s')) (sym tries)
        (elim (attempt-Paid s i req c w) [
          | inl ends ↦ inl ends
          | inr (back, paid) ↦ inr (inl back, paid)
        ]))

step-Goes :
    (i : ℕ) (req : Request) (s : System) (e : Event)
    → e ≢ exchanges i true
    → InCall req (s.workers i)
    → Goes i req s e
step-Goes i req s (calls j other) calm in_call = elim (Bool-cases (j == i)) [
  | inl own ↦
      subst (λ k. Goes i req s (calls k other)) (sym (==→eq j i own))
        (own_calls i req other s in_call)
  | inr f ↦ other-Goes i req s (calls j other) (λ same. ground arith) refl in_call
]
step-Goes i req s (loads j) calm in_call = elim (Bool-cases (j == i)) [
  | inl own ↦ subst (λ k. Goes i req s (loads k)) (sym (==→eq j i own)) (own_loads i req s in_call)
  | inr f ↦ other-Goes i req s (loads j) (λ same. ground arith) refl in_call
]
step-Goes i req s (exchanges j spurious) calm in_call = elim (Bool-cases (j == i)) [
  | inr f ↦ other-Goes i req s (exchanges j spurious) (λ same. ground arith) (rw f refl) in_call
  | inl own ↦ elim (Bool-cases spurious) [
    | inl by_chance ↦ absurd (calm (ground arith))
    | inr not_so ↦ rw (==→eq j i own, not_so) (own_exchanges i req s in_call)
  ]
]

-- Rounds that do not end the call are paid for.
run-Paid :
    (i : ℕ) (req : Request) (s : System) (es : List Event)
    → InCall req (s.workers i)
    → Steady i es
    → Ends i req s es
      ⊎ (rounds i s es + length s.log ≤ length (run s es).log + stale (s.workers i) s.arena.next)
unfolding rounds run Goes
run-Paid i req s [] in_call steady = inr (omega arith)
run-Paid i req s (e ∷ es) in_call (calm, steady) = elim (step-Goes i req s e calm in_call) [
  | inl ends ↦ inl (now ends)
  | inr (still, paid) ↦ elim (run-Paid i req (step s e) es still steady) [
    | inl ends ↦ inl (later ends)
    | inr rest ↦ inr (omega (arith, paid, rest))
  ]
]

-- Each span of a log takes at least a byte.
Stacked-length :
    (al floor bound : ℕ) (log : List ReservedSpan)
    → Stacked al floor bound log
    → floor + length log ≤ bound
Stacked-length al floor bound [] st = omega arith
Stacked-length al floor bound (s ∷ log) st =
    omega (arith, Stacked-length al floor s.start log st.3, st.1, st.2)

run-run : (s : System) (es fs : List Event) → run (run s es) fs ≡ run s (es ++ fs)
unfolding run
run-run s [] fs = refl
run-run s (e ∷ es) fs = run-run (step s e) es fs

-- In every schedule from a usable arena with all workers idle, let a worker be at the top of the loop of
-- a call at some point, and let from there on none of its exchanges fail by chance. If it comes to the
-- exchange of more rounds than the arena had bytes left at the beginning, then its call ends, however the
-- other workers' steps fall between its own: one of the later steps leaves the worker in no call, either
-- with its request refused and nothing changed, or with the span it planned handed out, the cursor then
-- being what it had read and moving behind that span.
pub rounds-Ends :
    (a : Arena) (before after : List Event) (i : ℕ) (req : Request)
    → IsArena a
    → (run (init a) before).workers i ≡ starting req
    → Steady i after
    → remaining a < rounds i (run (init a) before) after
    → Ends i req (run (init a) before) after
unfolding remaining
rounds-Ends a before after i req is top steady many =
    let s = run (init a) before in
    elim (run-Paid i req s after (inl top) steady) [
      | inl ends ↦ ends
      | inr paid ↦
          let v = run-Inv a (init a) (before ++ after) (init-Inv a is) in
          let few = Stacked-length a.alignment (a.base + a.next) _ _ v.stacked in
          absurd (
            omega (
              arith,
              paid,
              few,
              v.arena.cursor,
              v.same,
              is.cursor,
              ap (λ w. stale w s.arena.next) top,
              ap (λ (x : System). length x.log) (run-run (init a) before after),
            ))
    ]
