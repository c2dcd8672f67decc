-- ===== src/GlobalAlloc/Tests.antt =====
-- A fallback block of src/global_alloc.rs for 32 bytes aligned to 8, in a block of the system at address 4,104.
use orthotope.Prelude.{ℕ, ◌+◌, ◌<◌, ◌≡◌, refl, Bool, Option, none, some, Result, ok, arith}
use orthotope.Errors.{FreeError}
use orthotope.GlobalAlloc.{
  Layout, Prefixes, select_backend, own, try_fallback_layout, alloc, dealloc, Attempt, to_system,
}
use orthotope.GlobalAlloc.Fallback.{Within, dealloc-alloc}

abbrev asked : Layout
asked = record { size = 32; align = 8 }

abbrev raw_layout : Layout
raw_layout = record { size = 63; align = 8 }

abbrev system_alloc : Layout → ℕ
system_alloc l = 4_104

abbrev untouched : Prefixes
untouched a = record { magic = 0; raw_addr = 0; user_addr = 0 }

asked_backend : select_backend asked ≡ own
unfolding select_backend
asked_backend = refl

asked_layout : try_fallback_layout asked ≡ some raw_layout
unfolding try_fallback_layout orthotope.Prelude.Word.is_power_of_two
asked_layout = refl

dealloc-alloc_example :
    (ptr : ℕ) × (p : Prefixes) × (alloc system_alloc untouched asked (ok none) ≡ (ptr, p, none))
    × Within asked raw_layout 4_104 ptr
    × ((panicking : Bool) (attempt : Attempt (Result FreeError (Unit {0})))
        → dealloc panicking p ptr asked attempt ≡ to_system 4_104 raw_layout)
dealloc-alloc_example =
    dealloc-alloc system_alloc untouched asked raw_layout asked_backend asked_layout (omega arith)
      (omega arith)
