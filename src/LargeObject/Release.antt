-- ===== src/LargeObject/Release.antt =====
-- `validate_and_release_live_allocation` of src/large_object.rs, and what follows a release.
use orthotope.Prelude.{
  ℕ, ◌+◌, ◌-◌, ◌≤◌, ◌≡◌, refl, sym, ap, ◌∙◌, ◌≢◌, ◌⊎◌, inl, inr, Bool, true, false, ◌&&◌, none,
  some, ◌==◌, if◌then◌else◌, arith, All, All-mono, sum_by, sum_by-zero, leb, ltb, le→leb, lt→leb,
  Bool-cases, Option-cases, ==→eq, eq→==, Result, ok, err,
}
use orthotope.Errors.{FreeError, already_freed_or_unknown_large, corrupt_header}
use orthotope.LargeObject.{
  LargeObjectState, LargeAllocationRecord, FreeLargeBlock, lookup, remove, take_reusable_block,
  insert_free_block, validate_and_release_live_allocation,
}
use orthotope.LargeObject.Buckets.{contents, sum_by-push_bucket}
use orthotope.LargeObject.Registry.{
  remove-DistinctKeys, lookup-remove_self, lookup-remove_other, live_total-remove,
}
use orthotope.LargeObject.Accounting.{IsLarge, insert_free_block-IsLarge, take_reusable_block-best}

-- The block of a record
abbrev pub block_of : LargeAllocationRecord → FreeLargeBlock
block_of r = record { block_addr = r.block_addr; block_size = r.block_size }

-- `s'` is `s` after the release of `user`, whose record was `r`: the pointer is not live, every other
-- one has the record it had, the block of `r` is in the pool and the rest of the pool is as it was.
pub record Released (user : ℕ) (r : LargeAllocationRecord) (s s' : LargeObjectState) : Type 0 where
  pub gone : lookup user s'.live ≡ none
  pub others : (other : ℕ) → other ≢ user → lookup other s'.live ≡ lookup other s.live
  pub pooled :
      (f : FreeLargeBlock → ℕ)
      → sum_by f (contents s'.free) ≡ f (block_of r) + sum_by f (contents s.free)
  pub total : s'.live_bytes + s'.free_bytes ≡ s.live_bytes + s.free_bytes
  pub invariant : IsLarge s'

-- A live pointer is released when both sizes are those of its record.
pub release-ok :
    (s : LargeObjectState) (user requested usable : ℕ) (r : LargeAllocationRecord)
    → IsLarge s
    → lookup user s.live ≡ some r
    → r.requested_size ≡ requested
    → r.usable_size ≡ usable
    → (s' : LargeObjectState) × (validate_and_release_live_allocation s user requested usable
        ≡ (ok tt, s'))
      × Released user r s s'
unfolding validate_and_release_live_allocation insert_free_block
release-ok s user requested usable r is live same alike =
    let kept = record s { live = remove user s.live; live_bytes = s.live_bytes - r.block_size } in
    let sum = live_total-remove user s.live r live in
    (
      insert_free_block kept (block_of r),
      rw
          (
            validate_and_release_live_allocation,
            live,
            eq→== r.requested_size requested same,
            eq→== r.usable_size usable alike,
          )
          refl,
      record {
        gone = lookup-remove_self user s.live is.keys;
        others = λ other ne. lookup-remove_other user other s.live ne;
        pooled = λ f. sum_by-push_bucket f (block_of r) s.free;
        total = omega (arith, is.live_bytes, sum);
        invariant = insert_free_block-IsLarge kept (block_of r) (record {
          keys = remove-DistinctKeys user s.live is.keys;
          live_bytes = omega (arith, is.live_bytes, sum);
          buckets = is.buckets;
          free_blocks = is.free_blocks;
          free_bytes = is.free_bytes;
        });
      },
    )

-- In a state with the invariant, every release ends in one of three ways. The pointer is not
-- live, and the error says so; or it is live and one of the sizes is not that of its record, and
-- the header is called corrupt; both leave the state as it was. Or both sizes agree and the block
-- moves from the registry to the pool, where other pointers and blocks stay, the bytes live and
-- free together stay the same, and the invariant holds again.
pub release-cases :
    (s : LargeObjectState) (user requested usable : ℕ)
    → IsLarge s
    → ((lookup user s.live ≡ none)
        × (validate_and_release_live_allocation s user requested usable
            ≡ (err already_freed_or_unknown_large, s)))
      ⊎ ((r : LargeAllocationRecord) × (lookup user s.live ≡ some r)
          × ((((r.requested_size ≢ requested) ⊎ (r.usable_size ≢ usable))
                × (validate_and_release_live_allocation s user requested usable
                    ≡ (err corrupt_header, s)))
              ⊎ ((r.requested_size ≡ requested)
                  × (r.usable_size ≡ usable)
                  × ((s' : LargeObjectState) × (validate_and_release_live_allocation s user
                          requested usable
                        ≡ (ok tt, s'))
                      × Released user r s s'))))
unfolding validate_and_release_live_allocation
release-cases s user requested usable is = elim (Option-cases (lookup user s.live)) [
  | inl e ↦ inl (e, rw (validate_and_release_live_allocation, e) refl)
  | inr (r, e) ↦ inr (
    r,
    e,
    elim (Bool-cases (r.requested_size == requested)) [
      | inr a ↦ inl (
        inl (λ q. cc (eq→== r.requested_size requested q)),
        rw (validate_and_release_live_allocation, e, a) refl,
      )
      | inl a ↦ elim (Bool-cases (r.usable_size == usable)) [
        | inr b ↦ inl (
          inr (λ q. cc (eq→== r.usable_size usable q)),
          rw (validate_and_release_live_allocation, e, a, b) refl,
        )
        | inl b ↦
            let same = ==→eq r.requested_size requested a in
            let alike = ==→eq r.usable_size usable b in
            inr (same, alike, release-ok s user requested usable r is e same alike)
      ]
    ],
  )
]

refused :
    (v : Result FreeError (Unit {0}) × LargeObjectState) (s s' : LargeObjectState) (e : FreeError)
    → v ≡ (err e, s)
    → v ≡ (ok tt, s')
    → ⊥
refused v s s' e refusal success = cc

-- From a state with the invariant, after a release has succeeded, a second one of the same
-- pointer is refused as already freed and changes nothing, whatever sizes it names.
pub release-twice :
    (s s' : LargeObjectState) (user requested usable again_requested again_usable : ℕ)
    → IsLarge s
    → validate_and_release_live_allocation s user requested usable ≡ (ok tt, s')
    → validate_and_release_live_allocation s' user again_requested again_usable
      ≡ (err already_freed_or_unknown_large, s')
unfolding validate_and_release_live_allocation
release-twice s s' user requested usable again_requested again_usable is done =
    elim (release-cases s user requested usable is) [
      | inl (missing, e) ↦ absurd (refused _ s s' _ e done)
      | inr (r, live, inl (wrong, e)) ↦ absurd (refused _ s s' _ e done)
      | inr (r, live, inr (same, alike, (s'', e, released))) ↦
          rw (sym (ap (λ p. p.1) (sym e ∙ done)))
            (rw (validate_and_release_live_allocation, released.gone) refl)
    ]

-- The pool holds the block of a release: a test that the block passes, another block fails.
pooled-passes :
    (test : FreeLargeBlock → Bool) (user : ℕ) (r : LargeAllocationRecord) (s s' : LargeObjectState)
    → Released user r s s'
    → test (block_of r) ≡ true
    → All (λ c. test c ≡ false) (contents s'.free)
    → ⊥
pooled-passes test user r s s' released passes fails = absurd (omega (arith, total, mine, none_of))
  where
    indicator : FreeLargeBlock → ℕ
    indicator c = if test c then 1 else 0

    mine : indicator (block_of r) ≡ 1
    mine = ap (λ t. if t then 1 else 0) passes

    total :
        sum_by indicator (contents s'.free)
        ≡ indicator (block_of r) + sum_by indicator (contents s.free)
    total = released.pooled indicator

    none_of : sum_by indicator (contents s'.free) ≡ 0
    none_of =
        sum_by-zero indicator (contents s'.free)
          (All-mono (contents s'.free) (λ c q. ap (λ t. if t then 1 else 0) q) fails)

-- From a state with the invariant, the block of a live pointer that is released with its sizes
-- can be taken again by any request of at most its size: the pool then gives a block that is
-- large enough and no larger than it.
pub release-take :
    (s : LargeObjectState) (user : ℕ) (r : LargeAllocationRecord) (minimum : ℕ)
    → IsLarge s
    → lookup user s.live ≡ some r
    → minimum ≤ r.block_size
    → (s' s'' : LargeObjectState) × (b : FreeLargeBlock) × (validate_and_release_live_allocation s
          user r.requested_size r.usable_size
        ≡ (ok tt, s'))
      × (take_reusable_block s' minimum ≡ some (some b, s''))
      × (minimum ≤ b.block_size)
      × (b.block_size ≤ r.block_size)
release-take s user r minimum is live h =
    let (s', done, released) =
      release-ok s user r.requested_size r.usable_size r is live refl refl in
    elim (take_reusable_block-best s' minimum released.invariant) [
      | inl (missing, small) ↦ absurd (
          pooled-passes (λ c. leb minimum c.block_size) user r s s' released
            (le→leb minimum r.block_size h)
            (All-mono (contents s'.free) (λ c q. lt→leb minimum c.block_size q) small))
      | inr (b, s'', taken, fits, best, _, _, _) ↦ (
        s',
        s'',
        b,
        done,
        taken,
        fits,
        elim (Bool-cases (leb b.block_size r.block_size)) [
          | inl e ↦ ground arith
          | inr e ↦ absurd (
              pooled-passes (λ c. leb minimum c.block_size && ltb c.block_size b.block_size) user r
                s s' released (ground arith)
                (All-mono (contents s'.free) (λ c q. ground arith) best))
        ],
      )
    ]
