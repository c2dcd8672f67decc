-- ===== src/Allocator/Refused.antt =====
-- The frees that src/allocator.rs refuses, with a size and without one.
use orthotope.Prelude.{
  ℕ, ◌≡◌, refl, sym, ap, ◌⊎◌, inl, inr, Bool, Option, none, some, ◌==◌, Bool-cases, Option-cases,
  Result-cases, Result, ok, err,
}
use orthotope.Prelude.Panics.{◌>>=◌, Returns, Returns-some}
use orthotope.Header.{AllocationHeader, AllocationKind}
use orthotope.Errors.{FreeError}
use orthotope.LargeObject.{lookup, validate_and_release_live_allocation}
use orthotope.Allocator.{World}
use orthotope.Allocator.Large.{release_large}
use orthotope.Allocator.Free.{
  decode_header, validate_expected_size, validate_small_block_for_free, deallocate_decoded,
  deallocate_decoded_with_expected_size, bound, deallocate_with_cache, deallocate_with_size_checked,
}

-- A free that fails leaves the world as it was.
abbrev Unchanged : World → Result FreeError (Unit {0}) × World → Type 0
Unchanged w (ok done, w') = Unit
Unchanged w (err e, w') = w' ≡ w

release-Unchanged :
    (w : World) (user : ℕ) (header : AllocationHeader) → Unchanged w (release_large w user header)
unfolding release_large validate_and_release_live_allocation
release-Unchanged w user header = elim (Option-cases (lookup user ((w.allocator).large).live)) [
  | inl e ↦ rw (Unchanged, release_large, validate_and_release_live_allocation, e) refl
  | inr (r, e) ↦ elim (Bool-cases (r.requested_size == header.requested_size)) [
    | inr a ↦ rw (Unchanged, release_large, validate_and_release_live_allocation, e, a) refl
    | inl a ↦ elim (Bool-cases (r.usable_size == header.usable_size)) [
      | inr b ↦ rw (Unchanged, release_large, validate_and_release_live_allocation, e, a, b) refl
      | inl b ↦ rw (Unchanged, release_large, validate_and_release_live_allocation, e, a, b) tt
    ]
  ]
]

freed-Unchanged :
    (w : World) (o : Option World) → Returns (Unchanged w) (o >>= λ w'. some (ok tt, w'))
freed-Unchanged w none = tt
freed-Unchanged w (some w') = tt

bind-Unchanged :
    (w' : World) (e : FreeError) (o : Option World)
    (f : World → Option (Result FreeError (Unit {0}) × World))
    → ((b : World) → Returns (Unchanged b) (f b))
    → (o >>= f) ≡ some (err e, w')
    → o ≡ some w'
bind-Unchanged w' e none f h q = cc
bind-Unchanged w' e (some b) f h q =
    ap some (sym (Returns-some (Unchanged b) (f b) (err e, w') (h b) q))

module _ (page_size : ℕ) (advise : ℕ → ℕ → Result ℕ Bool) (debug : Bool) where
  decoded-Unchanged :
      (w : World) (user : ℕ) (header : AllocationHeader) (kind : AllocationKind)
      → Returns (Unchanged w) (deallocate_decoded page_size advise debug w user header kind)
  unfolding deallocate_decoded
  decoded-Unchanged w user header (AllocationKind.small class) =
      elim (Result-cases (validate_small_block_for_free debug w.memory w.allocator user)) [
        | inl (e, q) ↦ rw (Returns, deallocate_decoded, q) refl
        | inr (block, q) ↦ rw (Returns, deallocate_decoded, q) (freed-Unchanged w _)
      ]
  decoded-Unchanged w user header AllocationKind.large = release-Unchanged w user header

  sized-Unchanged :
      (w : World) (user : ℕ) (header : AllocationHeader) (kind : AllocationKind) (expected : ℕ)
      → Returns
          (Unchanged w)
          (deallocate_decoded_with_expected_size page_size advise debug w user header kind expected)
  unfolding deallocate_decoded_with_expected_size
  sized-Unchanged w user header (AllocationKind.small class) expected =
      elim (Result-cases (validate_small_block_for_free debug w.memory w.allocator user)) [
        | inl (e, q) ↦ rw (Returns, deallocate_decoded_with_expected_size, q) refl
        | inr (block, q) ↦ elim (Result-cases (validate_expected_size header expected)) [
          | inl (e, q') ↦ rw (Returns, deallocate_decoded_with_expected_size, q, q') refl
          | inr (done, q') ↦
              rw (Returns, deallocate_decoded_with_expected_size, q, q') (freed-Unchanged w _)
        ]
      ]
  sized-Unchanged w user header AllocationKind.large expected =
      elim (Result-cases (validate_expected_size header expected)) [
        | inl (e, q') ↦ rw (Returns, deallocate_decoded_with_expected_size, q') refl
        | inr (done, q') ↦
            rw (Returns, deallocate_decoded_with_expected_size, q')
              (release-Unchanged w user header)
      ]

  entered-Unchanged :
      (w : World) (user expected : ℕ) (d : Result FreeError (AllocationHeader × AllocationKind))
      → Returns (Unchanged w) (elim d [
        | err e ↦ some (err e, w)
        | ok (header, kind) ↦ deallocate_decoded page_size advise debug w user header kind
      ])
        × Returns (Unchanged w) (elim d [
          | err e ↦ some (err e, w)
          | ok (header, kind) ↦
              deallocate_decoded_with_expected_size page_size advise debug w user header kind
                expected
        ])
  entered-Unchanged w user expected (err e) = (refl, refl)
  entered-Unchanged w user expected (ok (header, kind)) =
      (decoded-Unchanged w user header kind, sized-Unchanged w user header kind expected)

  -- A free with or without a size that fails has changed nothing: the memory and the allocator are the
  -- ones before it, and the cache is the one bound to the allocator.
  pub refused-Unchanged :
      (w w' : World) (user expected : ℕ) (e : FreeError)
      → (deallocate_with_cache page_size advise debug w user ≡ some (err e, w'))
        ⊎ (deallocate_with_size_checked page_size advise debug w user expected ≡ some (err e, w'))
      → bound w ≡ some w'
  unfolding deallocate_with_cache deallocate_with_size_checked
  refused-Unchanged w w' user expected e (inl h) =
      bind-Unchanged w' e (bound w) _
        (λ b. (entered-Unchanged b user expected (decode_header w.memory user)).0) h
  refused-Unchanged w w' user expected e (inr h) =
      bind-Unchanged w' e (bound w) _
        (λ b. (entered-Unchanged b user expected (decode_header w.memory user)).1) h
