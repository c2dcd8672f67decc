-- ===== src/Api/Cycle.antt =====
-- A large allocation and its free through src/api.rs.
use orthotope.Prelude.{
  ℕ, ◌<◌, ◌≡◌, refl, sym, ap, subst, ◌∙◌, Bool, Option, none, some, ne→==, arith, inl, inr,
  Option-cases, Result, ok,
}
use orthotope.Errors.{AllocError}
use orthotope.SizeClass.{from_request}
use orthotope.Allocator.{World}
use orthotope.Allocator.Binding.{Owned, bind-Owned}
use orthotope.Allocator.Large.{allocate_large}
use orthotope.Allocator.LargeBlocks.{IsReady}
use orthotope.Allocator.LargeFree.{deallocate-allocate_large}
use orthotope.Allocator.Small.{allocate_with_cache}
use orthotope.Api.{
  Process, at_hand, try_with_thread_cache, allocate, deallocate, deallocate_with_size,
}

-- The process whose allocator and cache are those of a world, with the cache at hand
abbrev pub process : World → (next_cache_id : ℕ) → Process
process w next = record {
  memory = w.memory;
  global_allocator = ok w.allocator;
  thread_cache = at_hand (some w.cache);
  next_cache_id = next;
}

some-injective : {A : Type 0} (x y : A) → ◌≡◌ {A = Option A} (some x) (some y) → x ≡ y
some-injective x y e = cc

module _ (page_size : ℕ) (advise : ℕ → ℕ → Result ℕ Bool) (debug : Bool) where
  large_call :
      (w : World) (size : ℕ)
      → Owned w
      → 0 < size
      → from_request size ≡ none
      → allocate_with_cache page_size advise debug w size ≡ allocate_large debug w size
  unfolding allocate_with_cache
  large_call w size own pos large =
      rw (allocate_with_cache, bind-Owned w own, ne→== size 0 (omega arith), large) refl

  allocate_call :
      (w w' : World) (size next : ℕ) (r : Result AllocError ℕ)
      → allocate_with_cache page_size advise debug w size ≡ some (r, w')
      → allocate page_size advise debug (process w next) size ≡ some (r, process w' next)
  unfolding allocate try_with_thread_cache
  allocate_call w w' size next r e = rw (allocate, try_with_thread_cache, e) refl

  -- In a process whose allocator is well formed and whose thread has its cache at hand, bound to the
  -- allocator, let a request of at least one byte that no size class serves be granted. Then the pointer is
  -- freed by `deallocate`, and by `deallocate_with_size` with the requested size; both succeed and leave the
  -- same process.
  pub deallocate-allocate :
      (w : World) (p : Process) (size next ptr : ℕ)
      → Owned w
      → IsReady w
      → 0 < size
      → from_request size ≡ none
      → allocate page_size advise debug (process w next) size ≡ some (ok ptr, p)
      → (p' : Process) × (deallocate page_size advise debug p ptr ≡ some (ok tt, p'))
        × (deallocate_with_size page_size advise debug p ptr size ≡ some (ok tt, p'))
  unfolding allocate deallocate deallocate_with_size try_with_thread_cache
  deallocate-allocate w p size next ptr own is pos large e =
      elim (Option-cases (allocate_large debug w size)) [
        | inl q ↦
            absurd
              (cc (rw (allocate, try_with_thread_cache, large_call w size own pos large ∙ q) at e))
        | inr ((r, w'), q) ↦
            let same =
              some-injective (r, process w' next) (ok ptr, p)
                (sym (allocate_call w w' size next r (large_call w size own pos large ∙ q)) ∙ e) in
            let granted = q ∙ ap (λ (x : Result AllocError ℕ × Process). some (x.0, w')) same in
            let (w'', freed, freed_sized, _) =
              deallocate-allocate_large page_size advise debug w w' size ptr is own pos granted in
            subst
              (λ x.
                (p' : Process) × (deallocate page_size advise debug x ptr ≡ some (ok tt, p'))
                × (deallocate_with_size page_size advise debug x ptr size ≡ some (ok tt, p')))
              (ap (λ (x : Result AllocError ℕ × Process). x.1) same)
              (
                process w'' next,
                rw (deallocate, try_with_thread_cache, freed) refl,
                rw (deallocate_with_size, try_with_thread_cache, freed_sized) refl,
              )
      ]
