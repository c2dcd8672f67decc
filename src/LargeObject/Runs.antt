-- ===== src/LargeObject/Runs.antt =====
-- The states that the operations of src/large_object.rs reach from an empty registry.
use orthotope.Prelude.{ℕ, ◌≡◌, Bool, Option, some}
use orthotope.LargeObject.{
  LargeObjectState, FreeLargeBlock, new, take_reusable_block, record_live_allocation,
  validate_and_release_live_allocation,
}

-- A state after any calls that did not panic.
pub data Reachable : LargeObjectState → Type 0 where
  initial : Reachable new
  taken :
      {s s' : LargeObjectState} {found : Option FreeLargeBlock} (minimum : ℕ)
      → Reachable s
      → take_reusable_block s minimum ≡ some (found, s')
      → Reachable s'
  recorded :
      {s s' : LargeObjectState} (debug : Bool) (user block size requested usable : ℕ)
      → Reachable s
      → record_live_allocation debug s user block size requested usable ≡ some s'
      → Reachable s'
  released :
      {s : LargeObjectState} (user requested usable : ℕ)
      → Reachable s
      → Reachable (validate_and_release_live_allocation s user requested usable).1
