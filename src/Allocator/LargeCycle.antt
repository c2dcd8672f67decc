-- ===== src/Allocator/LargeCycle.antt =====
-- `allocate_large` of src/allocator.rs and the free of its block.
use native.Mathlib.Decide.{dec_le, dec_lt}
use orthotope.Prelude.{
  ℕ, ◌+◌, ◌<◌, ◌≡◌, refl, ◌∙◌, inl, inr, Bool, Option, none, some, arith, Option-cases, Result, ok,
  err,
}
use orthotope.Prelude.Panics.{◌>>=◌, Returns, Returns-some}
use orthotope.Prelude.Word.{u32_limit}
use orthotope.SizeClass.{header_size}
use orthotope.Header.{AllocationKind, user_ptr_from_block_start}
use orthotope.Header.Memory.{read_from_user_ptr}
use orthotope.Header.Roundtrip.{large_header, block_start-user_ptr, read-write_large}
use orthotope.Errors.{AllocError}
use orthotope.LargeObject.{lookup}
use orthotope.LargeObject.Accounting.{record_live_allocation-fresh, record_live_allocation-twice}
use orthotope.Allocator.{World}
use orthotope.Allocator.Large.{large_layout, obtain_large_block, commit_large_block, allocate_large}
use orthotope.Allocator.LargeBlocks.{
  Placed, IsReady, Got, Obtained, obtain_large_block-Got, large_layout-big,
}

-- A live large allocation: the pointer is 64 bytes past a placed block, its record names the block, and
-- its header reads back as large with the sizes of the record.
pub record IsLive (w : World) (user requested usable : ℕ) : Type 0 where
  pub start : ℕ
  pub size : ℕ
  pub placed : Placed start
  pub address : user ≡ start + header_size
  pub recorded :
      lookup user ((w.allocator).large).live
      ≡ some (record {
        block_addr = start;
        block_size = size;
        requested_size = requested;
        usable_size = usable;
      })
  pub header :
      read_from_user_ptr w.memory user ≡ ok (large_header requested usable, AllocationKind.large)

-- What an allocation comes to: a live block, in a world that is ready and has the same cache, or nothing.
pub record Allocated (w w' : World) (user requested : ℕ) : Type 0 where
  pub usable : ℕ
  pub live : IsLive w' user requested usable
  pub ready : IsReady w'
  pub cache : w'.cache ≡ w.cache
  pub identity : (w'.allocator).id ≡ (w.allocator).id
  pub config : (w'.allocator).config ≡ (w.allocator).config

abbrev pub Outcome : World → ℕ → Result AllocError ℕ × World → Type 0
Outcome w requested (ok user, w') = Allocated w w' user requested
Outcome w requested (err e, w') = Unit

commit-Outcome :
    (debug : Bool) (w : World) (requested start size usable : ℕ)
    → IsReady w
    → Placed start
    → 0 < requested
    → Returns (Outcome w requested) (commit_large_block debug w requested start size usable)
unfolding commit_large_block
commit-Outcome debug w requested start size usable is placed pos =
    let (fits, refused) = read-write_large w.memory start requested usable placed.1 in
    elim (dec_le requested usable) [
      | no low ↦ rw (Returns, commit_large_block, refused (inr (inl (omega arith)))) tt
      | yes enough ↦ elim (dec_lt usable u32_limit) [
        | no big ↦ rw (Returns, commit_large_block, refused (inr (inr (omega arith)))) tt
        | yes word ↦
            let (m', written, readable, frame) = fits (pos, enough, word) in
            elim (Option-cases
              (lookup (user_ptr_from_block_start start) ((w.allocator).large).live)) [
                | inr (r, live) ↦
                    rw
                      (
                        Returns,
                        commit_large_block,
                        written,
                        record_live_allocation-twice debug (w.allocator).large
                            (user_ptr_from_block_start start) start size requested usable r live,
                      )
                      tt
                | inl missing ↦
                    let (s', done, found, others, free, holds) =
                      record_live_allocation-fresh debug (w.allocator).large
                        (user_ptr_from_block_start start) start size requested usable is.large
                        missing pos enough in
                    rw (Returns, commit_large_block, written, done)
                      (record {
                        usable = usable;
                        live = record {
                          start = start;
                          size = size;
                          placed = placed;
                          address = (block_start-user_ptr start placed.1).1;
                          recorded = found;
                          header = readable;
                        };
                        ready = record {
                          large = holds;
                          pool = rw free is.pool;
                          arena = is.arena;
                          grid = is.grid;
                        };
                        cache = refl;
                        identity = refl;
                        config = refl;
                      })
              ]
      ]
    ]

carried-Outcome :
    (w v : World) (requested start : ℕ) (o : Option (Result AllocError ℕ × World))
    → Got w v start
    → Returns (Outcome v requested) o
    → Returns (Outcome w requested) o
carried-Outcome w v requested start none got h = tt
carried-Outcome w v requested start (some (err e, w')) got h = tt
carried-Outcome w v requested start (some (ok user, w')) got h = record {
  usable = h.usable;
  live = h.live;
  ready = h.ready;
  cache = h.cache ∙ got.cache;
  identity = h.identity ∙ got.identity;
  config = h.config ∙ got.config;
}

Obtained-Outcome :
    (debug : Bool) (w : World) (requested : ℕ) (o : Option (Result AllocError (ℕ × ℕ × ℕ) × World))
    → 0 < requested
    → Returns (Obtained w) o
    → Returns (Outcome w requested) (
        o >>= λ (obtained, v). elim obtained [
          | err e ↦ some (err e, v)
          | ok (start, size, usable) ↦ commit_large_block debug v requested start size usable
        ])
Obtained-Outcome debug w requested none pos h = tt
Obtained-Outcome debug w requested (some (err e, v)) pos h = tt
Obtained-Outcome debug w requested (some (ok (start, size, usable), v)) pos got =
    carried-Outcome w v requested start (commit_large_block debug v requested start size usable) got
      (commit-Outcome debug v requested start size usable got.ready got.placed pos)

-- From a world whose arena and large objects are well formed, a request of at least one byte that
-- `allocate_large` grants is live: its pointer is 64 bytes past a block on the grid of headers, it is
-- recorded with that block, its header reads back as large with the sizes of the record, the world is
-- well formed again and the cache is the same.
pub allocate_large-Allocated :
    (debug : Bool) (w w' : World) (requested user : ℕ)
    → IsReady w
    → 0 < requested
    → allocate_large debug w requested ≡ some (ok user, w')
    → Allocated w w' user requested
unfolding allocate_large
allocate_large-Allocated debug w w' requested user is pos e =
    Returns-some (Outcome w requested) (allocate_large debug w requested) (ok user, w') outcome e
  where
    outcome : Returns (Outcome w requested) (allocate_large debug w requested)
    outcome = elim (Option-cases (large_layout ((w.allocator).config).alignment requested)) [
      | inl q ↦ rw (Returns, allocate_large, q) tt
      | inr ((block_size, usable), q) ↦
          let (big, _) =
            large_layout-big ((w.allocator).config).alignment requested block_size usable pos q in
          rw (Returns, allocate_large, q)
            (Obtained-Outcome debug w requested (obtain_large_block w block_size usable requested)
              pos (obtain_large_block-Got w block_size usable requested is big))
    ]
