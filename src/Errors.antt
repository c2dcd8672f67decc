-- ===== src/Errors.antt =====
-- src/error.rs: the failures of construction, of allocation and of freeing.
use Prim.Native.String.{String}
use orthotope.Prelude.{ℕ}

-- `map_failed` carries the operating system's error code.
pub data InitError : Type 0 where
  map_failed : ℕ → InitError
  invalid_config : String → InitError

pub data AllocError : Type 0 where
  zero_size global_init_failed : AllocError
  out_of_memory : (requested remaining : ℕ) → AllocError

pub data FreeError : Type 0 where
  free_init_failed foreign_pointer : FreeError
  size_mismatch : (provided recorded : ℕ) → FreeError
  double_free already_freed_or_unknown_large corrupt_header : FreeError
