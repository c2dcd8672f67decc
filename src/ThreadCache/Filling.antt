-- ===== src/ThreadCache/Filling.antt =====
-- The accounts of a `LocalClassCache` of src/thread_cache.rs that is new, and of one that takes a batch.
use orthotope.Prelude.{
  ℕ, ◌+◌, ◌*◌, ◌<◌, ◌≡◌, refl, sym, ap, subst, ◌∙◌, ◌⊎◌, err, List, [], ◌∷◌, ◌++◌, length,
  get_elem?, set_elem, take, drop, lt→ltb, sum_by-append, length-append, none, some, ◌==◌, inl, inr,
  arith, Bool-cases, Option-cases, ==→eq,
}
use orthotope.Prelude.Panics.{Returns, Returns->>=}
use orthotope.Prelude.Word.{usize_limit}
use orthotope.Prelude.Slots.{
  sum_by-set, get-append_left, get-append_last, get-some-lt, get-set_same,
}
use orthotope.Header.Memory.{Memory}
use orthotope.FreeList.{FreeList, Batch}
use orthotope.FreeList
use orthotope.ThreadCache.LocalSlab.{LocalSlab}
use orthotope.ThreadCache.LocalSlab
use orthotope.ThreadCache.SlabCounts.{blocks}
use orthotope.ThreadCache.Listing.{Listed, Drained, in_slabs, set-cases, some-injective}
use orthotope.Prelude.Search.{binary_search}
use orthotope.ThreadCache.ClassCache.{
  LocalClassCache, start_of, enter_slab, mark_slab_available, push_owned_slab,
}
use orthotope.ThreadCache.ClassCache
use orthotope.ThreadCache.Blocks.{push_shared_batch}
use orthotope.ThreadCache.Rounds.{IsAccounted}

-- The accounts of a new class cache are in order.
pub new-IsAccounted : IsAccounted ClassCache.new
unfolding ClassCache.new FreeList.new
new-IsAccounted = record {
  total = refl;
  shared = refl;
  listed = λ id s k e q. absurd cc;
  drained = λ id s e q. absurd cc;
}

push_batch-len :
    (m : Memory) (l : FreeList) (b : Batch)
    → Returns (λ (l', m'). l'.len ≡ l.len + b.len) (FreeList.push_batch m l b)
unfolding FreeList.push_batch
push_batch-len m l b = elim (Bool-cases (b.len == 0)) [
  | inl e ↦ rw (Returns, FreeList.push_batch, e) (omega (arith, ==→eq b.len 0 e))
  | inr e ↦ elim (Option-cases b.head) [
    | inl h ↦ rw (Returns, FreeList.push_batch, e, h) tt
    | inr (head, h) ↦ elim (Option-cases b.tail) [
      | inl t ↦ rw (Returns, FreeList.push_batch, e, h, t) tt
      | inr (tail, t) ↦ rw (Returns, FreeList.push_batch, e, h, t) refl
    ]
  ]
]

-- A batch that a class cache takes is counted in full, and keeps the accounts in order.
pub push_shared_batch-IsAccounted :
    (m : Memory) (c : LocalClassCache) (b : Batch)
    → IsAccounted c
    → Returns
        (λ (c', m'). (c'.total_len ≡ c.total_len + b.len) × IsAccounted c')
        (push_shared_batch m c b)
unfolding push_shared_batch
push_shared_batch-IsAccounted m c b is =
    Returns->>= (λ (l', m'). l'.len ≡ (c.shared).len + b.len)
      (λ (c', m'). (c'.total_len ≡ c.total_len + b.len) × IsAccounted c')
      (FreeList.push_batch m c.shared b) _ (push_batch-len m c.shared b)
      (λ (l', m') len. (
        refl,
        record {
          total = omega (arith, is.total);
          shared = omega (arith, is.shared, len);
          listed = is.listed;
          drained = is.drained;
        },
      ))

-- The slab that `LocalSlab::new` makes of a range that fits in a word
abbrev fresh_slab : (start block_size capacity : ℕ) → LocalSlab
fresh_slab start block_size capacity = record {
  start = start;
  end_addr = start + block_size * capacity;
  block_size = block_size;
  capacity = capacity;
  next_fresh = 0;
  free = FreeList.new;
  available_slot = none;
}

new-slab :
    (start block_size capacity : ℕ)
    → start + block_size * capacity < usize_limit
    → LocalSlab.new start block_size capacity ≡ some (fresh_slab start block_size capacity)
unfolding LocalSlab.new
new-slab start block_size capacity fits =
    rw
      (
        lt→ltb (block_size * capacity) usize_limit (omega arith),
        lt→ltb (start + block_size * capacity) usize_limit fits,
      )
      refl

blocks-fresh :
    (start block_size capacity : ℕ) → blocks (fresh_slab start block_size capacity) ≡ capacity
unfolding FreeList.new
blocks-fresh start block_size capacity = omega arith

-- A slab that gets the next place in both lists
module _ (c : LocalClassCache) (s t : LocalSlab) (is : IsAccounted c)
    (at_end : t.available_slot ≡ some (length c.available_slabs)) where
  abbrev grown : List LocalSlab
  grown = set_elem (c.slabs ++ (s ∷ [])) (length c.slabs) t

  abbrev listed_ids : List ℕ
  listed_ids = c.available_slabs ++ (length c.slabs ∷ [])

  grown-cases :
      (j : ℕ) (u : LocalSlab)
      → get_elem? grown j ≡ some u
      → ((j ≡ length c.slabs) × (u ≡ t)) ⊎ (get_elem? c.slabs j ≡ some u)
  grown-cases j u e =
      elim (set-cases (c.slabs ++ (s ∷ [])) (length c.slabs) j s t u (get-append_last c.slabs s)
        e) [
          | inl here ↦ inl here
          | inr (there, at_j) ↦
              let low = get-some-lt (c.slabs ++ (s ∷ [])) j u at_j in
              let size = length-append c.slabs (s ∷ []) in
              inr (sym (get-append_left c.slabs (s ∷ []) j (omega (arith, low, size))) ∙ at_j)
        ]

  grown-Listed : Listed grown listed_ids
  grown-Listed j u k e q = elim (grown-cases j u e) [
    | inl (here, same) ↦
        let slot = sym at_end ∙ sym (ap (λ (x : LocalSlab). x.available_slot) same) ∙ q in
        subst (λ x. get_elem? listed_ids x ≡ some j)
          (some-injective (length c.available_slabs) k slot)
          (rw here (get-append_last c.available_slabs (length c.slabs)))
    | inr at_j ↦
        let found = is.listed j u k at_j q in
        get-append_left c.available_slabs (length c.slabs ∷ []) k
          (get-some-lt c.available_slabs k j found)
        ∙ found
  ]

  grown-Drained : Drained grown
  grown-Drained j u e q = elim (grown-cases j u e) [
    | inl (here, same) ↦ let slot = ap (λ (x : LocalSlab). x.available_slot) same in absurd cc
    | inr at_j ↦ is.drained j u at_j q
  ]

  grown-in_slabs : in_slabs grown ≡ in_slabs c.slabs + blocks t
  grown-in_slabs = omega (
    arith,
    sum_by-set blocks (c.slabs ++ (s ∷ [])) (length c.slabs) s t (get-append_last c.slabs s),
    sum_by-append blocks c.slabs (s ∷ []),
  )

-- If the accounts of a class cache are in order, the search for the start finds none of its slabs, and
-- neither the end of the slab nor the new total overflows a word, then the cache takes the slab: the call
-- returns, the slab stands at the end of the table with its full capacity and is the recent one, the total
-- grows by that capacity, and the accounts are in order again.
pub push_owned_slab-IsAccounted :
    (c : LocalClassCache) (start block_size capacity place : ℕ)
    → IsAccounted c
    → binary_search (start_of c.slabs) start c.slabs_by_start ≡ some (err place)
    → start + block_size * capacity < usize_limit
    → c.total_len + capacity < usize_limit
    → (c' : LocalClassCache) × (push_owned_slab c start block_size capacity ≡ some c')
      × (c'.total_len ≡ c.total_len + capacity)
      × (c'.recent_slab ≡ some (length c.slabs))
      × ((s : LocalSlab) × (get_elem? c'.slabs (length c.slabs) ≡ some s)
          × (s.start ≡ start)
          × (blocks s ≡ capacity))
      × IsAccounted c'
unfolding push_owned_slab enter_slab mark_slab_available
push_owned_slab-IsAccounted c start block_size capacity place is absent fits room =
    let s = fresh_slab start block_size capacity in
    let t : LocalSlab = record s { available_slot = some (length c.available_slabs) } in
    let size = blocks-fresh start block_size capacity in
    (
      record {
        hot_block = c.hot_block;
        slabs = grown c s t is refl;
        slabs_by_start =
            take place c.slabs_by_start ++ (length c.slabs ∷ drop place c.slabs_by_start);
        available_slabs = listed_ids c s t is refl;
        recent_slab = some (length c.slabs);
        shared = c.shared;
        shared_len = c.shared_len;
        total_len = c.total_len + capacity;
      },
      rw
          (
            absent,
            new-slab start block_size capacity fits,
            get-append_last c.slabs s,
            lt→ltb (c.total_len + capacity) usize_limit room,
          )
          refl,
      refl,
      refl,
      (
        t,
        get-set_same (c.slabs ++ (s ∷ [])) (length c.slabs) t
            (omega (arith, length-append c.slabs (s ∷ []))),
        refl,
        size,
      ),
      record {
        total = omega (arith, is.total, size, grown-in_slabs c s t is refl);
        shared = is.shared;
        listed = grown-Listed c s t is refl;
        drained = grown-Drained c s t is refl;
      },
    )
