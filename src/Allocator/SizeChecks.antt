-- ===== src/Allocator/SizeChecks.antt =====
-- `deallocate_with_size_checked` of src/allocator.rs against `deallocate_with_cache`.
use orthotope.Prelude.{
  ℕ, ◌≡◌, refl, ◌≢◌, ◌⊎◌, inl, inr, Bool, false, Option, none, some, ◌==◌, Bool-cases, Result-cases,
  ==→eq, eq→==, Result, ok, err,
}
use orthotope.Prelude.Panics.{◌>>=◌}
use orthotope.Header.{AllocationHeader, AllocationKind}
use orthotope.Errors.{FreeError, size_mismatch}
use orthotope.Allocator.{World}
use orthotope.Allocator.Free.{
  decode_header, validate_expected_size, validate_small_block_for_free, deallocate_decoded,
  deallocate_decoded_with_expected_size, bound, deallocate_with_cache, deallocate_with_size_checked,
}

-- The error of a free that names another size than the header: a small block is first checked for its
-- arena and its marker.
abbrev pub mismatch :
    (debug : Bool)
    → World
    → (user : ℕ) → AllocationHeader
    → AllocationKind
    → (expected : ℕ) → FreeError
mismatch debug w user header (AllocationKind.small class) expected =
    elim (validate_small_block_for_free debug w.memory w.allocator user) [
      | err e ↦ e
      | ok block ↦ size_mismatch expected header.requested_size
    ]
mismatch debug w user header AllocationKind.large expected =
    size_mismatch expected header.requested_size

validate-same :
    (header : AllocationHeader) (expected : ℕ)
    → expected ≡ header.requested_size
    → validate_expected_size header expected ≡ ok tt
unfolding validate_expected_size
validate-same header expected same = rw (eq→== expected header.requested_size same) refl

module _ (page_size : ℕ) (advise : ℕ → ℕ → Result ℕ Bool) (debug : Bool) where
  decoded-same :
      (w : World) (user : ℕ) (header : AllocationHeader) (kind : AllocationKind) (expected : ℕ)
      → expected ≡ header.requested_size
      → deallocate_decoded_with_expected_size page_size advise debug w user header kind expected
        ≡ deallocate_decoded page_size advise debug w user header kind
  unfolding deallocate_decoded deallocate_decoded_with_expected_size
  decoded-same w user header (AllocationKind.small class) expected same =
      elim (Result-cases (validate_small_block_for_free debug w.memory w.allocator user)) [
        | inl (e, q) ↦ rw (deallocate_decoded, deallocate_decoded_with_expected_size, q) refl
        | inr (block, q) ↦
            rw
              (
                deallocate_decoded,
                deallocate_decoded_with_expected_size,
                q,
                validate-same header expected same,
              )
              refl
      ]
  decoded-same w user header AllocationKind.large expected same =
      rw
        (
          deallocate_decoded,
          deallocate_decoded_with_expected_size,
          validate-same header expected same,
        )
        refl

  decoded-other :
      (w : World) (user : ℕ) (header : AllocationHeader) (kind : AllocationKind) (expected : ℕ)
      → (expected == header.requested_size) ≡ false
      → deallocate_decoded_with_expected_size page_size advise debug w user header kind expected
        ≡ some (err (mismatch debug w user header kind expected), w)
  unfolding deallocate_decoded_with_expected_size validate_expected_size
  decoded-other w user header (AllocationKind.small class) expected other =
      elim (Result-cases (validate_small_block_for_free debug w.memory w.allocator user)) [
        | inl (e, q) ↦
            rw (mismatch, deallocate_decoded_with_expected_size, validate_expected_size, q) refl
        | inr (block, q) ↦
            rw (mismatch, deallocate_decoded_with_expected_size, validate_expected_size, q, other)
              refl
      ]
  decoded-other w user header AllocationKind.large expected other =
      rw (deallocate_decoded_with_expected_size, validate_expected_size, other) refl

  entered-same :
      (o : Option World) (f g : World → Option (Result FreeError (Unit {0}) × World))
      → ((b : World) → f b ≡ g b)
      → (o >>= f) ≡ (o >>= g)
  entered-same none f g h = refl
  entered-same (some b) f g h = h b

  -- For a pointer whose header decodes: with the size of the header, a free that checks the size is the
  -- free that does not, in its result and in everything that it changes. With any other size it fails
  -- and only binds the cache: a small block outside the arena or marked as freed with the error that it
  -- would have had without a size, every other one with the two sizes.
  pub size_checked-cases :
      (w : World) (user expected : ℕ) (header : AllocationHeader) (kind : AllocationKind)
      → decode_header w.memory user ≡ ok (header, kind)
      → ((expected ≡ header.requested_size)
          × (deallocate_with_size_checked page_size advise debug w user expected
              ≡ deallocate_with_cache page_size advise debug w user))
        ⊎ ((expected ≢ header.requested_size)
            × (deallocate_with_size_checked page_size advise debug w user expected
                ≡ (bound w >>= λ b. some (err (mismatch debug b user header kind expected), b))))
  unfolding deallocate_with_size_checked deallocate_with_cache
  size_checked-cases w user expected header kind e =
      elim (Bool-cases (expected == header.requested_size)) [
        | inl a ↦ inl (
          ==→eq expected header.requested_size a,
          rw e (
              entered-same (bound w) _ _ (λ b.
                decoded-same b user header kind expected (==→eq expected header.requested_size a))),
        )
        | inr a ↦ inr (
          λ q. cc (eq→== expected header.requested_size q),
          rw e (entered-same (bound w) _ _ (λ b. decoded-other b user header kind expected a)),
        )
      ]
