-- ===== src/GlobalAlloc/Fallback.antt =====
-- Fallback blocks of src/global_alloc.rs.
use orthotope.Prelude.{
  ℕ, ◌+◌, ◌-◌, ◌%◌, ◌≤◌, ◌<◌, ◌≡◌, refl, inl, inr, Bool, true, Option, none, some, ◌==◌, arith,
  Bool-cases, eq→==, ne→==, le→ltb, lt→ltb, ==→eq, Result, ok,
}
use native.Mathlib.Nat.{mod-lt}
use orthotope.Prelude.Rounding.{mod-round_up}
use orthotope.Prelude.Word.{usize_limit, wrapping_sub}
use orthotope.Errors.{FreeError}
use orthotope.GlobalAlloc.{
  Layout, own, Prefixes, prefix_size, fallback_magic, write_prefix, select_backend,
  fallback_alignment, from_size_align, try_fallback_layout, align_up, fallback_alloc,
  fallback_raw_ptr, alloc, dealloc, Attempt, to_system,
}

alignment_pos : (l : Layout) → 8 ≤ fallback_alignment l
unfolding fallback_alignment
alignment_pos l = ground arith

some-injective : {A : Type 0} (x y : A) → ◌≡◌ {A = Option A} (some x) (some y) → x ≡ y
some-injective x y e = cc

try_fallback_layout-size :
    (l r : Layout)
    → try_fallback_layout l ≡ some r
    → r.size ≡ l.size + prefix_size + (fallback_alignment l - 1)
unfolding try_fallback_layout from_size_align
try_fallback_layout-size l r e = ground (arith)

-- The address that is rounded up
aligned_up :
    (v a : ℕ)
    → 0 < a
    → v + a ≤ usize_limit
    → (u : ℕ) × (align_up v a ≡ some u) × (u % a ≡ 0) × (v ≤ u) × (u < v + a)
unfolding align_up
aligned_up v a pos room = elim (Bool-cases (v % a == 0)) [
  | inl e ↦ (v, rw (align_up, e) refl, ==→eq (v % a) 0 e, omega arith, omega arith)
  | inr e ↦ (
    v + (a - v % a),
    rw (align_up, e, lt→ltb (v + (a - v % a)) usize_limit (ground (arith, mod-lt v pos))) refl,
    mod-round_up v a pos,
    omega arith,
    ground arith,
  )
]

-- A fallback block in the block of the system that it lies in: it is aligned, the prefix fits before it,
-- and the bytes of the layout fit after it.
pub record Within (l r : Layout) (raw ptr : ℕ) : Type 0 where
  pub aligned : ptr % fallback_alignment l ≡ 0
  pub prefix_fits : raw + prefix_size ≤ ptr
  pub bytes_fit : ptr + l.size ≤ raw + r.size

prefix-found :
    (p : Prefixes) (raw ptr : ℕ)
    → raw + prefix_size ≤ ptr
    → 0 < raw
    → ptr < usize_limit
    → fallback_raw_ptr
        (write_prefix p
          (wrapping_sub ptr prefix_size)
          (record { magic = fallback_magic; raw_addr = raw; user_addr = ptr }))
        ptr
      ≡ some raw
unfolding fallback_raw_ptr
prefix-found p raw ptr room pos small =
    rw
      (
        fallback_raw_ptr,
        le→ltb ptr prefix_size (omega arith),
        ne→== (ptr - prefix_size) 0 (omega arith),
        at_prefix,
        eq→== ptr ptr refl,
      )
      refl
  where
    at_prefix : (ptr - prefix_size == wrapping_sub ptr prefix_size) ≡ true
    at_prefix = eq→== (ptr - prefix_size) (wrapping_sub ptr prefix_size) (omega arith)

-- Let a layout belong to Orthotope, have a fallback layout, and let the cache be in use, and let the system
-- give a block for the fallback layout that ends inside the address space. Then the allocation gives a
-- pointer on the fallback alignment, with the prefix and the bytes of the layout inside the system's block.
-- A later deallocation of the pointer with the layout, whether or not the cache is in use then, goes to the
-- system with that block and the fallback layout.
pub dealloc-alloc :
    (system_alloc : Layout → ℕ) (p : Prefixes) (l r : Layout)
    → select_backend l ≡ own
    → try_fallback_layout l ≡ some r
    → 0 < system_alloc r
    → system_alloc r + r.size < usize_limit
    → (ptr : ℕ) × (p' : Prefixes) × (alloc system_alloc p l (ok none) ≡ (ptr, p', none))
      × Within l r (system_alloc r) ptr
      × ((panicking : Bool) (attempt : Attempt (Result FreeError (Unit {0})))
          → dealloc panicking p' ptr l attempt ≡ to_system (system_alloc r) r)
unfolding alloc fallback_alloc dealloc
dealloc-alloc system_alloc p l r mine layout pos room =
    let size = try_fallback_layout-size l r layout in
    let (ptr, up, grid, above, below) =
      aligned_up (system_alloc r + prefix_size) (fallback_alignment l)
        (omega (arith, alignment_pos l)) (omega (arith, alignment_pos l, size)) in
    (
      ptr,
      write_prefix p (wrapping_sub ptr prefix_size)
          (record { magic = fallback_magic; raw_addr = system_alloc r; user_addr = ptr }),
      rw (alloc, mine, fallback_alloc, layout, ne→== (system_alloc r) 0 (omega arith), up) refl,
      record {
        aligned = grid;
        prefix_fits = above;
        bytes_fit = omega (arith, size, alignment_pos l);
      },
      λ panicking attempt.
          rw
            (
              dealloc,
              mine,
              ne→== ptr 0 (omega arith),
              prefix-found p (system_alloc r) ptr above pos (omega (arith, size, alignment_pos l)),
              layout,
            )
            refl,
    )
