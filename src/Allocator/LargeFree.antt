-- ===== src/Allocator/LargeFree.antt =====
-- The free of a large block by src/allocator.rs.
use orthotope.Prelude.{
  ℕ, ◌+◌, ◌-◌, ◌%◌, ◌<◌, ◌≡◌, refl, Bool, none, some, arith, eq→==, le→ltb, Result, ok,
}
use orthotope.SizeClass.{header_size}
use orthotope.Header.{AllocationKind, header_alignment, from_encoded_fields}
use orthotope.Header.Roundtrip.{large_header}
use orthotope.LargeObject.{lookup}
use orthotope.LargeObject.Release.{release-ok}
use orthotope.Allocator.{World, with_large}
use orthotope.Allocator.Binding.{Owned, bind-Owned}
use orthotope.Allocator.Large.{allocate_large, release_large}
use orthotope.Allocator.LargeBlocks.{misplaced, Placed-misplaced, IsReady}
use orthotope.Allocator.LargeCycle.{IsLive, allocate_large-Allocated}
use orthotope.Allocator.Free.{
  decode_header, validate_expected_size, deallocate_decoded, deallocate_decoded_with_expected_size,
  deallocate_with_cache, deallocate_with_size_checked,
}

decode-IsLive :
    (w : World) (user requested usable : ℕ)
    → IsLive w user requested usable
    → decode_header w.memory user ≡ ok (large_header requested usable, AllocationKind.large)
unfolding decode_header
decode-IsLive w user requested usable live =
    rw
      (
        decode_header,
        le→ltb user header_size (omega (arith, live.address)),
        eq→== ((user - header_size) % header_alignment) 0 aligned,
      )
      live.header
  where
    back : user - header_size ≡ live.start
    back = omega (arith, live.address)

    aligned : (user - header_size) % header_alignment ≡ 0
    aligned = rw back live.placed.0

-- `w'` is `w` after the free of `user`: it is not live, every live and free byte is still one, and the
-- world is well formed.
pub record Returned (user : ℕ) (w w' : World) : Type 0 where
  pub gone : lookup user ((w'.allocator).large).live ≡ none
  pub total :
      ((w'.allocator).large).live_bytes + ((w'.allocator).large).free_bytes
      ≡ ((w.allocator).large).live_bytes + ((w.allocator).large).free_bytes
  pub ready : IsReady w'

release-IsLive :
    (w : World) (user requested usable : ℕ)
    → IsReady w
    → IsLive w user requested usable
    → (w' : World) × (release_large w user (large_header requested usable) ≡ (ok tt, w'))
      × Returned user w w'
unfolding release_large from_encoded_fields
release-IsLive w user requested usable is live =
    let (s', done, released) =
      release-ok (w.allocator).large user requested usable _ is.large live.recorded refl refl in
    (
      with_large w s',
      rw (release_large, done) refl,
      record {
        gone = released.gone;
        total = released.total;
        ready = record {
          large = released.invariant;
          pool = omega (
            arith,
            released.pooled misplaced,
            is.pool,
            Placed-misplaced (record { block_addr = live.start; block_size = live.size })
                live.placed,
          );
          arena = is.arena;
          grid = is.grid;
        };
      },
    )

module _ (page_size : ℕ) (advise : ℕ → ℕ → Result ℕ Bool) (debug : Bool) where
  free-IsLive :
      (w : World) (user requested usable : ℕ)
      → IsReady w
      → Owned w
      → IsLive w user requested usable
      → (w' : World) × (deallocate_with_cache page_size advise debug w user ≡ some (ok tt, w'))
        × (deallocate_with_size_checked page_size advise debug w user requested ≡ some (ok tt, w'))
        × Returned user w w'
  unfolding deallocate_with_cache deallocate_with_size_checked deallocate_decoded
      deallocate_decoded_with_expected_size validate_expected_size from_encoded_fields
  free-IsLive w user requested usable is own live =
      let (w', done, returned) = release-IsLive w user requested usable is live in
      (
        w',
        rw
            (
              deallocate_with_cache,
              bind-Owned w own,
              decode-IsLive w user requested usable live,
              deallocate_decoded,
              done,
            )
            refl,
        rw
            (
              deallocate_with_size_checked,
              bind-Owned w own,
              decode-IsLive w user requested usable live,
              deallocate_decoded_with_expected_size,
              validate_expected_size,
              eq→== requested requested refl,
              done,
            )
            refl,
        returned,
      )

  -- From a world whose arena and large objects are well formed and whose cache belongs to the allocator,
  -- a block that `allocate_large` grants for a request of at least one byte is freed by its pointer
  -- alone, and by its pointer with the requested size: both succeed and end in the same world, in which
  -- the pointer is not live, no byte of a large block is lost, and which is well formed.
  pub deallocate-allocate_large :
      (w w' : World) (requested user : ℕ)
      → IsReady w
      → Owned w
      → 0 < requested
      → allocate_large debug w requested ≡ some (ok user, w')
      → (w'' : World) × (deallocate_with_cache page_size advise debug w' user ≡ some (ok tt, w''))
        × (deallocate_with_size_checked page_size advise debug w' user requested
            ≡ some (ok tt, w''))
        × Returned user w' w''
  deallocate-allocate_large w w' requested user is own pos e =
      let granted = allocate_large-Allocated debug w w' requested user is pos e in
      free-IsLive w' user requested granted.usable granted.ready
        (rw (granted.cache, granted.identity) own) granted.live
