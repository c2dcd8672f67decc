-- ===== src/Prelude/Search.antt =====
-- `partition_point` and `binary_search_by_key` of slices of ids that ascend by a key, where an id
-- without a key panics.
use Prim.Native.Nat.{ℕ, ◌+◌}
use mathlib.Core.Option.{Option, some}
use mathlib.Core.List.{List, [], ◌∷◌}
use orthotope.Prelude.Tests.{ltb, leb, ◌==◌, if◌then◌else◌}
use orthotope.Prelude.Results.{Result, ok, err}
use orthotope.Prelude.Panics.{◌>>=◌}

-- How many ids have a key at or below `bound`
unfoldable pub partition_point : (key : ℕ → Option ℕ) (bound : ℕ) → List ℕ → Option ℕ
partition_point key bound [] = some 0
partition_point key bound (id ∷ ids) = do
  k ← key id
  after ← partition_point key bound ids
  some (if leb k bound then after + 1 else 0)

-- The place of the id with the key that is sought, or the one where it belongs
unfoldable pub binary_search : (key : ℕ → Option ℕ) (sought : ℕ) → List ℕ → Option (Result ℕ ℕ)
binary_search key sought [] = some (err 0)
binary_search key sought (id ∷ ids) = do
  k ← key id
  after ← binary_search key sought ids
  some (
      if k == sought
      then ok 0
      else if ltb sought k
      then err 0
      else elim after [ ok i ↦ ok (i + 1) | err i ↦ err (i + 1) ])
