-- ===== src/Allocator/DoubleFree.antt =====
-- The second free of a small block in a build of src/allocator.rs with debug assertions.
use orthotope.Prelude.{
  ℕ, ◌-◌, ◌%◌, ◌≡◌, refl, ap, sym, ◌∙◌, Bool, true, Option, none, some, ◌==◌, ltb, inl, inr,
  Bool-cases, eq→==, Result, ok, err, ◌>>=◌,
}
use orthotope.Prelude.Panics.{Returns, Returns-map, Returns-some}
use orthotope.Prelude.Panics
use orthotope.SizeClass.{SizeClass, header_size}
use orthotope.Header.{
  AllocationHeader, AllocationHeaderPrefix, AllocationKind, prefix_of, from_encoded_fields,
  validate_prefix, block_start_from_user_ptr, small_owner_cache_id_after_kind_decode,
  header_alignment,
}
use orthotope.Header.Memory.{
  Memory, read_from_user_ptr, mark_small_block_freed, small_block_is_marked_freed,
  small_free_marker_for,
}
use orthotope.Header.Marker.{mark_frame}
use orthotope.Errors.{FreeError, double_free}
use orthotope.Arena.{contains_block_start}
use orthotope.Allocator.{World}
use orthotope.Allocator.Binding.{Owned, bind-Owned}
use orthotope.Allocator.Routing.{Kept, Roomy, route-Kept}
use orthotope.Allocator.Free.{
  decode_header, validate_small_block_for_free, finish_small_free, deallocate_decoded,
  deallocate_decoded_with_expected_size, deallocate_with_cache, deallocate_with_size_checked,
  route_small_freed_block,
}

-- A header is read from its prefix alone.
pub read_same :
    (m m' : Memory) (user : ℕ)
    → prefix_of (m' (block_start_from_user_ptr user))
      ≡ prefix_of (m (block_start_from_user_ptr user))
    → read_from_user_ptr m' user ≡ read_from_user_ptr m user
unfolding read_from_user_ptr
read_same m m' user e = ap read e
  where
    read : AllocationHeaderPrefix → Result FreeError (AllocationHeader × AllocationKind)
    read p = validate_prefix p >>= λ kind. ok (
      from_encoded_fields p.kind p.class_index p.requested_size p.usable_size p.owner_cache_id,
      kind,
    )

pub decode_same :
    (m m' : Memory) (user : ℕ)
    → prefix_of (m' (block_start_from_user_ptr user))
      ≡ prefix_of (m (block_start_from_user_ptr user))
    → decode_header m' user ≡ decode_header m user
unfolding decode_header
decode_same m m' user e = elim (Bool-cases (ltb user header_size)) [
  | inl low ↦ rw (decode_header, low) refl
  | inr high ↦ elim (Bool-cases ((user - header_size) % header_alignment == 0)) [
    | inl grid ↦ rw (decode_header, high, grid) (read_same m m' user e)
    | inr off ↦ rw (decode_header, high, off) refl
  ]
]

marked_by_mark :
    (m : Memory) (block : ℕ)
    → (mark_small_block_freed true m block block).small_free_marker ≡ small_free_marker_for block
unfolding mark_small_block_freed
marked_by_mark m block = rw (eq→== block block refl) refl

-- What a small free leaves: the block's prefix, its marker, and everything that a later free looks at.
record Freed (w w' : World) (block : ℕ) : Type 0 where
  prefix : prefix_of (w'.memory block) ≡ prefix_of (w.memory block)
  marker : (w'.memory block).small_free_marker ≡ small_free_marker_for block
  arena : (w'.allocator).arena ≡ (w.allocator).arena
  owned : Owned w'

abbrev marked : World → ℕ → World
marked w block = record w { memory = mark_small_block_freed true w.memory block }

Kept-Freed : (w w' : World) (block : ℕ) → Owned w → Kept (marked w block) w' → Freed w w' block
Kept-Freed w w' block own kept = record {
  prefix = (kept.heads block).0 ∙ (mark_frame true w.memory block block).0;
  marker = (kept.heads block).1 ∙ marked_by_mark w.memory block;
  arena = kept.arena;
  owned = kept.owner ∙ own ∙ ap some (sym kept.identity);
}

-- A free that succeeds was of a block inside the arena.
abbrev Done : World → ℕ → Result FreeError (Unit {0}) × World → Type 0
Done w block (ok done, w') =
    Freed w w' block × (contains_block_start (w.allocator).arena block ≡ true)
Done w block (err e, w') = Unit

module _ (page_size : ℕ) (advise : ℕ → ℕ → Result ℕ Bool) where
  finish-Freed :
      (w : World) (class : SizeClass) (block : ℕ) (header : AllocationHeader)
      → Owned w
      → (header.owner_cache_id ≡ (w.cache).cache_id → Roomy w.cache class)
      → Returns
          (λ w'. Freed w w' block)
          (finish_small_free page_size advise true w class block header)
  unfolding finish_small_free small_owner_cache_id_after_kind_decode
  finish-Freed w class block header own roomy =
      Returns-map (Kept (marked w block)) (λ w'. Freed w w' block)
        (route_small_freed_block page_size advise true (marked w block) class block
          header.owner_cache_id)
        (λ w' kept. Kept-Freed w w' block own kept)
        (route-Kept page_size advise true (marked w block) class block header.owner_cache_id roomy)

  completed :
      (w : World) (block : ℕ) (o : Option World)
      → contains_block_start (w.allocator).arena block ≡ true
      → Returns (λ w'. Freed w w' block) o
      → Returns (Done w block) (Panics.◌>>=◌ o λ w'. some (ok tt, w'))
  completed w block none inside h = tt
  completed w block (some w') inside h = (h, inside)

  decoded-Done :
      (w : World) (user : ℕ) (header : AllocationHeader) (class : SizeClass)
      → Owned w
      → (header.owner_cache_id ≡ (w.cache).cache_id → Roomy w.cache class)
      → Returns
          (Done w (block_start_from_user_ptr user))
          (deallocate_decoded page_size advise true w user header (AllocationKind.small class))
  unfolding deallocate_decoded validate_small_block_for_free
  decoded-Done w user header class own roomy =
      elim (Bool-cases
        (contains_block_start (w.allocator).arena (block_start_from_user_ptr user))) [
          | inr outside ↦
              rw (Returns, deallocate_decoded, validate_small_block_for_free, outside) tt
          | inl inside ↦
              elim (Bool-cases
                (small_block_is_marked_freed true w.memory (block_start_from_user_ptr user))) [
                  | inl freed ↦
                      rw (Returns, deallocate_decoded, validate_small_block_for_free, inside, freed)
                        tt
                  | inr live ↦
                      rw (deallocate_decoded, validate_small_block_for_free, inside, live)
                        (completed w (block_start_from_user_ptr user) _ inside
                          (finish-Freed w class (block_start_from_user_ptr user) header own roomy))
                ]
        ]

  -- A block that reads as freed in an arena that has it
  refused :
      (w w' : World) (user : ℕ)
      → Freed w w' (block_start_from_user_ptr user)
      → contains_block_start (w.allocator).arena (block_start_from_user_ptr user) ≡ true
      → validate_small_block_for_free true w'.memory w'.allocator user ≡ err double_free
  unfolding validate_small_block_for_free small_block_is_marked_freed
  refused w w' user freed inside =
      rw
        (
          validate_small_block_for_free,
          freed.arena,
          inside,
          small_block_is_marked_freed,
          eq→== _ _ freed.marker,
        )
        refl

  -- In a build with debug assertions, let the cache belong to the allocator and let a free of a pointer
  -- with the header of a small block succeed, where the block goes back to another cache or to a class of
  -- its own cache that has room for it below its limit. Then a second free of the pointer, with any size
  -- or without one, fails as a double free and changes nothing.
  pub deallocate-twice :
      (w w' : World) (user expected : ℕ) (header : AllocationHeader) (class : SizeClass)
      → Owned w
      → decode_header w.memory user ≡ ok (header, AllocationKind.small class)
      → (header.owner_cache_id ≡ (w.cache).cache_id → Roomy w.cache class)
      → deallocate_with_cache page_size advise true w user ≡ some (ok tt, w')
      → (deallocate_with_cache page_size advise true w' user ≡ some (err double_free, w'))
        × (deallocate_with_size_checked page_size advise true w' user expected
            ≡ some (err double_free, w'))
  unfolding deallocate_with_cache deallocate_with_size_checked deallocate_decoded
      deallocate_decoded_with_expected_size
  deallocate-twice w w' user expected header class own decodes roomy done =
      let (freed, inside) =
        Returns-some (Done w (block_start_from_user_ptr user))
          (deallocate_with_cache page_size advise true w user) (ok tt, w')
          (rw (deallocate_with_cache, bind-Owned w own, decodes)
            (decoded-Done w user header class own roomy))
          done in
      let again : decode_header w'.memory user ≡ ok (header, AllocationKind.small class) =
        decode_same w.memory w'.memory user freed.prefix ∙ decodes in
      (
        rw
            (
              deallocate_with_cache,
              bind-Owned w' freed.owned,
              again,
              deallocate_decoded,
              refused w w' user freed inside,
            )
            refl,
        rw
            (
              deallocate_with_size_checked,
              bind-Owned w' freed.owned,
              again,
              deallocate_decoded_with_expected_size,
              refused w w' user freed inside,
            )
            refl,
      )
