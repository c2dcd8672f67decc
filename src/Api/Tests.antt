-- ===== src/Api/Tests.antt =====
-- A request of 17,000,000 bytes through src/api.rs.
use orthotope.Prelude.{ℕ, ◌≡◌, refl, true, Option, none, some, Result, ok, arith}
use orthotope.Errors.{AllocError}
use orthotope.SizeClass.{from_request}
use orthotope.Allocator.Tests.{start, advise, start-Owned, start-IsReady}
use orthotope.Api.{Process, allocate, deallocate, deallocate_with_size}
use orthotope.Api.Cycle.{process, deallocate-allocate}

-- The process after a call, which is the first one when the call gives none
abbrev after : Option (Result AllocError ℕ × Process) → Process
after none = process start 3
after (some (r, p)) = p

abbrev granted : Process
granted = after (allocate 4_096 advise true (process start 3) 17_000_000)

granted_run : allocate 4_096 advise true (process start 3) 17_000_000 ≡ some (ok 4_160, granted)
unfolding allocate orthotope.Allocator.Small.allocate_with_cache
    orthotope.ThreadCache.bind_to_allocator from_request orthotope.Allocator.Large.allocate_large
    orthotope.Allocator.align_up_checked orthotope.LargeObject.take_reusable_block
    orthotope.LargeObject.new orthotope.Arena.allocate_block orthotope.Arena.reserve_span
    orthotope.Arena.plan_span orthotope.Arena.align_up orthotope.Header.Memory.write_large_to_block
    orthotope.Header.encode_large_fields orthotope.LargeObject.record_live_allocation
    orthotope.Header.user_ptr_from_block_start
granted_run = refl

no_class : from_request 17_000_000 ≡ none
unfolding from_request
no_class = refl

deallocate-allocate_example :
    (p : Process) × (deallocate 4_096 advise true granted 4_160 ≡ some (ok tt, p))
    × (deallocate_with_size 4_096 advise true granted 4_160 17_000_000 ≡ some (ok tt, p))
deallocate-allocate_example =
    deallocate-allocate 4_096 advise true start granted 17_000_000 3 4_160 start-Owned start-IsReady
      (omega arith) no_class granted_run
