-- ===== src/ThreadCache/Draining.antt =====
-- The loop of `drain_all_to_central` of src/thread_cache.rs on one class.
use orthotope.Prelude.{
  ℕ, zero, suc, ◌≤◌, ◌≡◌, refl, ◌⊎◌, Bool, true, none, some, ◌==◌, inl, inr, arith, Bool-cases,
  Option-cases, eq→==, Result,
}
use orthotope.Prelude.Panics.{Returns-some}
use orthotope.Header.Memory.{Memory}
use orthotope.SizeClass.{SizeClass}
use orthotope.FreeList.{Batch}
use orthotope.CentralPool.{CentralPool, return_batch}
use orthotope.ThreadCache.ClassCache.{LocalClassCache, is_empty}
use orthotope.ThreadCache.Blocks.{pop_batch}
use orthotope.ThreadCache.Drains.{drain_class}
use orthotope.ThreadCache.Rounds.{IsAccounted, Round, pop_batch-Round}

module _ (page_size : ℕ) (advise : ℕ → ℕ → Result ℕ Bool) (class : SizeClass) where
  -- A run of the loop that meets a broken contract or a panic: in the batch that a round takes, in its
  -- return to the pool, or in a later round.
  pub data Breaks : Memory → LocalClassCache → CentralPool → Type 0 where
    in_batch :
        {m : Memory} {c : LocalClassCache} {central : CentralPool}
        → pop_batch m c c.total_len class ≡ none
        → Breaks m c central
    in_return :
        {m : Memory} {c : LocalClassCache} {central : CentralPool} {taken : Batch}
        {c' : LocalClassCache} {m' : Memory}
        → pop_batch m c c.total_len class ≡ some (taken, c', m')
        → return_batch page_size advise m' central class taken ≡ none
        → Breaks m c central
    later :
        {m : Memory} {c : LocalClassCache} {central : CentralPool} {taken : Batch}
        {c' : LocalClassCache} {m' : Memory} {central' : CentralPool} {m2 : Memory}
        → pop_batch m c c.total_len class ≡ some (taken, c', m')
        → return_batch page_size advise m' central class taken ≡ some (central', m2)
        → Breaks m2 c' central'
        → Breaks m c central

  -- The loop ends with an empty class, whose accounts are in order.
  abbrev pub Ends : (rounds : ℕ) → Memory → LocalClassCache → CentralPool → Type 0
  Ends rounds m c central =
      (c' : LocalClassCache) × (central' : CentralPool) × (m' : Memory) × (drain_class page_size
          advise rounds m c class central
        ≡ some (c', central', m'))
      × (is_empty c' ≡ true)
      × IsAccounted c'

  -- From a class cache with its accounts in order, the loop that drains it ends within as many rounds as
  -- the class has blocks, and leaves the class empty, unless one of its rounds breaks a contract or panics:
  -- no round takes an empty batch, so it does not run forever.
  pub drain_class-Ends :
      (rounds : ℕ) (m : Memory) (c : LocalClassCache) (central : CentralPool)
      → IsAccounted c
      → c.total_len ≤ rounds
      → Ends rounds m c central ⊎ Breaks m c central
  unfolding drain_class is_empty
  drain_class-Ends zero m c central is enough = inl (
    c,
    central,
    m,
    rw (drain_class, eq→== c.total_len 0 (omega arith)) refl,
    eq→== c.total_len 0 (omega arith),
    is,
  )
  drain_class-Ends (suc rounds) m c central is enough = elim (Bool-cases (c.total_len == 0)) [
    | inl e ↦ inl (c, central, m, rw (drain_class, is_empty, e) refl, e, is)
    | inr e ↦ elim (Option-cases (pop_batch m c c.total_len class)) [
      | inl q ↦ inr (in_batch q)
      | inr ((taken, c', m'), q) ↦
          elim (Option-cases (return_batch page_size advise m' central class taken)) [
            | inl p ↦ inr (in_return q p)
            | inr ((central', m2), p) ↦
                let (pos, left, is') =
                  Returns-some (Round c) (pop_batch m c c.total_len class) (taken, c', m')
                    (pop_batch-Round m c c.total_len class is (ground arith) (omega arith)) q in
                elim (drain_class-Ends rounds m2 c' central' is' (omega arith)) [
                  | inl (c2, central2, m3, run, done, is2) ↦
                      inl (c2, central2, m3, rw (drain_class, is_empty, e, q, p) run, done, is2)
                  | inr b ↦ inr (later q p b)
                ]
          ]
    ]
  ]
