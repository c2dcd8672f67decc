-- ===== src/ThreadCache/Rounds.antt =====
-- One round of the loop that drains a class of src/thread_cache.rs: `pop_batch` of `LocalClassCache`.
use native.Mathlib.Decide.{dec_le}
use orthotope.Prelude.{
  ℕ, ◌+◌, ◌-◌, min, ◌≤◌, ◌<◌, ◌≡◌, refl, sym, ap, ◌∙◌, Option, none, some, ◌==◌, get_elem?,
  set_elem, length, inl, inr, arith, Bool-cases, Option-cases, ==→eq,
}
use orthotope.Prelude.Slots.{
  sum_by-set, sum_by-get, sum_by-none, get-some-lt, get-lt-some, get-set_same,
}
use orthotope.Prelude.Panics.{◌>>=◌, Returns, Returns->>=}
use orthotope.Header.Memory.{Memory}
use orthotope.SizeClass.{SizeClass}
use orthotope.FreeList.{Batch, pop_batch_unchecked}
use orthotope.FreeList
use orthotope.ThreadCache.LocalSlab.{LocalSlab, has_available_blocks}
use orthotope.ThreadCache.LocalSlab
use orthotope.ThreadCache.ClassCache.{LocalClassCache, with_slab, mark_slab_unavailable}
use orthotope.ThreadCache.Blocks.{last_of, retire_if_empty, pop_hot_batch, pop_batch}
use orthotope.ThreadCache.SlabCounts.{blocks, pop_batch-count, Taken, pop_batch-Taken}
use orthotope.ThreadCache.Listing.{Listed, Drained, in_slabs, set-cases}
use orthotope.ThreadCache.Accounts.{Retired, unavailable-Retired}

abbrev pub in_hot : Option ℕ → ℕ
in_hot none = 0
in_hot (some block) = 1

-- The count is that of the blocks in the hot slot, the shared list and the slabs; the slots agree with the
-- list of available slabs; slabs without a slot have no blocks.
pub record IsAccounted (c : LocalClassCache) : Type 0 where
  pub total : c.total_len ≡ in_hot c.hot_block + c.shared_len + in_slabs c.slabs
  pub shared : (c.shared).len ≡ c.shared_len
  pub listed : Listed c.slabs c.available_slabs
  pub drained : Drained c.slabs

-- A round takes at least one block, and exactly the blocks of its batch.
abbrev pub Round : LocalClassCache → Batch × LocalClassCache × Memory → Type 0
Round c (taken, c', m') =
    (0 < taken.len) × (c'.total_len + taken.len ≡ c.total_len) × IsAccounted c'

-- A cache with nothing in its hot slot, its shared list and its list of available slabs is empty.
no_source :
    (c : LocalClassCache)
    → IsAccounted c
    → c.shared_len ≡ 0
    → last_of c.available_slabs ≡ none
    → c.hot_block ≡ none
    → c.total_len ≡ 0
no_source c is no_shared no_slab no_hot = omega (
  arith,
  is.total,
  ap in_hot no_hot,
  sum_by-none blocks c.slabs (λ id s e. nothing id s e s.available_slot refl),
)
  where
    empty : length c.available_slabs ≡ 0
    empty = elim (dec_le (length c.available_slabs) 0) [
      | yes h ↦ omega arith
      | no h ↦
          let (x, e) = get-lt-some c.available_slabs (length c.available_slabs - 1) (omega arith) in
          absurd cc
    ]

    nothing :
        (id : ℕ) (s : LocalSlab)
        → get_elem? c.slabs id ≡ some s
        → (o : Option ℕ) → s.available_slot ≡ o
        → blocks s ≡ 0
    nothing id s e none q = is.drained id s e q
    nothing id s e (some k) q =
        absurd (omega (arith, empty, get-some-lt c.available_slabs k id (is.listed id s k e q)))

-- A slab that kept its slot and has no blocks left is retired or stays.
retired-Round :
    (c c' : LocalClassCache) (max : ℕ) (taken : Batch)
    → IsAccounted c
    → 0 < taken.len
    → c'.total_len + taken.len ≡ c.total_len
    → c'.hot_block ≡ c.hot_block
    → c'.shared ≡ c.shared
    → c'.shared_len ≡ c.shared_len
    → in_slabs c'.slabs + taken.len ≡ in_slabs c.slabs
    → Listed c'.slabs c'.available_slabs
    → Drained c'.slabs
    → (m : Memory) → Round c (taken, c', m)
retired-Round c c' max taken is pos total hot shared shared_len slab_blocks listed drained m = (
  pos,
  total,
  record {
    total = omega (arith, is.total, ap in_hot hot);
    shared = ap (λ (l : FreeList.FreeList). l.len) shared ∙ is.shared ∙ sym shared_len;
    listed = listed;
    drained = drained;
  },
)

slab-Round :
    (c : LocalClassCache) (id max : ℕ) (s s' : LocalSlab) (taken : Batch) (m : Memory)
    → IsAccounted c
    → get_elem? c.slabs id ≡ some s
    → c.total_len ≤ max
    → Taken s max (taken, s', m)
    → Returns (Round c) (
        retire_if_empty (record (with_slab c id s') { total_len = c.total_len - taken.len }) id s'
        >>= λ c'. some (taken, c', m))
unfolding retire_if_empty
slab-Round c id max s s' taken m is at_id all (pos, size, left, slot) =
    elim (Bool-cases (has_available_blocks s')) [
      | inl e ↦
          rw (Returns, retire_if_empty, e)
            (retired-Round c c1 max taken is pos total refl refl refl counted listed drained m)
      | inr e ↦
          rw (retire_if_empty, e)
            (Returns->>= (Retired c1) (Round c) (mark_slab_unavailable c1 id) _
              (unavailable-Retired c1 id s' listed
                (get-set_same c.slabs id s' (get-some-lt c.slabs id s at_id)) empty
                (λ j u there at_j q. drained j u at_j q))
              (λ c' r.
                retired-Round c c' max taken is pos (omega (arith, r.total, total)) r.hot r.shared
                  r.shared_len (omega (arith, r.slab_blocks, counted)) r.listed r.drained m))
    ]
  where
    c1 : LocalClassCache
    c1 = record (with_slab c id s') { total_len = c.total_len - taken.len }

    within : blocks s ≤ c.total_len
    within = omega (arith, is.total, sum_by-get blocks c.slabs id s at_id)

    empty : blocks s' ≡ 0
    empty = omega (arith, within)

    total : c.total_len - taken.len + taken.len ≡ c.total_len
    total = omega (arith, within)

    counted : in_slabs (set_elem c.slabs id s') + taken.len ≡ in_slabs c.slabs
    counted = omega (arith, sum_by-set blocks c.slabs id s s' at_id)

    listed : Listed (set_elem c.slabs id s') c.available_slabs
    listed j u k e q = elim (set-cases c.slabs id j s s' u at_id e) [
      | inl (here, same) ↦ rw here (
          is.listed id s k at_id
            (sym slot ∙ sym (ap (λ (x : LocalSlab). x.available_slot) same) ∙ q))
      | inr (there, at_j) ↦ is.listed j u k at_j q
    ]

    drained : Drained (set_elem c.slabs id s')
    drained j u e q = elim (set-cases c.slabs id j s s' u at_id e) [
      | inl (here, same) ↦ ap blocks same ∙ empty
      | inr (there, at_j) ↦ is.drained j u at_j q
    ]

hot-Round :
    (m : Memory) (c : LocalClassCache) (block : ℕ)
    → IsAccounted c
    → c.hot_block ≡ some block
    → Returns (Round c) (pop_hot_batch m c block)
unfolding pop_hot_batch FreeList.new FreeList.push_block
hot-Round m c block is hot =
    let (list, m1) = FreeList.push_block m FreeList.new block in
    Returns->>= (λ (b, l, m2). (0 < b.len) × (b.len ≡ min 1 list.len) × (l.len + b.len ≡ list.len))
      (Round c) (pop_batch_unchecked m1 list 1) _ (pop_batch-count m1 list 1)
      (λ (b, l, m2) (pos, size, left). (
        pos,
        omega (arith, is.total, ap in_hot hot),
        record {
          total = omega (arith, is.total, ap in_hot hot);
          shared = is.shared;
          listed = is.listed;
          drained = is.drained;
        },
      ))

-- With the accounts in order and a maximum of at least all blocks, each batch that a class cache with
-- blocks gives out without a broken contract has at least one block, the count goes down by exactly its
-- blocks, and the accounts are in order again.
pub pop_batch-Round :
    (m : Memory) (c : LocalClassCache) (max : ℕ) (class : SizeClass)
    → IsAccounted c
    → 0 < c.total_len
    → c.total_len ≤ max
    → Returns (Round c) (pop_batch m c max class)
unfolding pop_batch
pop_batch-Round m c max class is some_left all = elim (Bool-cases (c.shared_len == 0)) [
  | inr e ↦
      rw (pop_batch, e)
        (Returns->>=
          (λ (b, l, m').
            (0 < b.len) × (b.len ≡ min max (c.shared).len) × (l.len + b.len ≡ (c.shared).len))
          (Round c) (pop_batch_unchecked m c.shared max) _ (pop_batch-count m c.shared max)
          (λ (b, l, m') (pos, size, left). (
            pos,
            omega (arith, is.total, is.shared),
            record {
              total = omega (arith, is.total, is.shared);
              shared = omega (arith, is.shared);
              listed = is.listed;
              drained = is.drained;
            },
          )))
  | inl e ↦ elim (Option-cases (last_of c.available_slabs)) [
    | inr (id, q) ↦ elim (Option-cases (get_elem? c.slabs id)) [
      | inl p ↦ rw (Returns, pop_batch, e, q, p) tt
      | inr (s, p) ↦
          rw (pop_batch, e, q, p)
            (Returns->>= (Taken s max) (Round c) (LocalSlab.pop_batch m s max class) _
              (pop_batch-Taken m s max class)
              (λ (taken, s', m') t. slab-Round c id max s s' taken m' is p all t))
    ]
    | inl q ↦ elim (Option-cases c.hot_block) [
      | inr (block, h) ↦ rw (pop_batch, e, q, h) (hot-Round m c block is h)
      | inl h ↦ absurd (omega (arith, no_source c is (==→eq c.shared_len 0 e) q h))
    ]
  ]
]
