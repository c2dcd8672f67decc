-- ===== src/Allocator/Routing.antt =====
-- Where `route_small_freed_block` of src/allocator.rs puts a block, and what it leaves as it is.
use orthotope.Prelude.{
  ℕ, ◌+◌, ◌<◌, ◌≡◌, refl, ◌∙◌, Bool, true, false, some, ◌==◌, get_elem?, set_elem, if◌then◌else◌,
  inl, inr, Bool-cases, Option-cases, arith, le→ltb, ==→eq, Result,
}
use orthotope.Prelude.Slots.{get-set_same, get-some-lt}
use orthotope.Prelude.Panics.{◌>>=◌, Returns, Returns->>=, Returns-any, Returns-some}
use orthotope.Header.Memory.{Memory}
use orthotope.SizeClass.{SizeClass, index}
use orthotope.CentralPool.{CentralPool, publish_remote_batch}
use orthotope.ThreadCache.ClassCache.{LocalClassCache}
use orthotope.ThreadCache.Blocks
use orthotope.ThreadCache.RemoteReturns
use orthotope.ThreadCache.RemoteReturns.{take_all_unchecked}
use orthotope.ThreadCache.{
  ThreadCache, ClassCacheConfig, push, with_class, should_drain, push_and_should_drain,
  push_remote_return, should_flush_remote_returns, flush_remote_returns_for_class,
}
use orthotope.ThreadCache.Headers.{
  SameHeads, SameHeads-refl, SameHeads-trans, push_block-class, push_remote-SameHeads,
  take_all-SameHeads, publish-SameHeads,
}
use orthotope.ThreadCache.Counts.{Total, push_block-Total}
use orthotope.Allocator.{World, with_central}
use orthotope.Allocator.Free.{return_to_cache, return_to_remote, route_small_freed_block}

-- Every prefix, every marker, the arena, the allocator's identity and the owner of the cache are the same.
pub record Kept (w w' : World) : Type 0 where
  pub heads : SameHeads w.memory w'.memory
  pub arena : (w'.allocator).arena ≡ (w.allocator).arena
  pub identity : (w'.allocator).id ≡ (w.allocator).id
  pub config : (w'.allocator).config ≡ (w.allocator).config
  pub owner : (w'.cache).owner ≡ (w.cache).owner

-- The class has room for one more block below its limit.
abbrev pub Roomy : ThreadCache → SizeClass → Type 0
Roomy t class =
    (c : LocalClassCache) (cfg : ClassCacheConfig)
    → get_elem? t.classes (index class) ≡ some c
    → get_elem? t.class_config (index class) ≡ some cfg
    → c.total_len < cfg.local_limit

-- What a push into a roomy class comes to
abbrev Pushed : Memory → ThreadCache → Bool × ThreadCache × Memory → Type 0
Pushed m t (drains, t', m') = (drains ≡ false) × SameHeads m m' × (t'.owner ≡ t.owner)

limit-kept :
    (t : ThreadCache) (class : SizeClass) (c c' : LocalClassCache) (m m' : Memory)
    → Roomy t class
    → get_elem? t.classes (index class) ≡ some c
    → Total (c.total_len + 1) c'
    → SameHeads m m'
    → Returns (Pushed m t) (
        should_drain (with_class t (index class) c') class >>= λ drains.
        some (drains, with_class t (index class) c', m'))
unfolding should_drain
limit-kept t class c c' m m' roomy at_class total heads =
    elim (Option-cases (get_elem? t.class_config (index class))) [
      | inl e ↦ rw (Returns, should_drain, same, e) tt
      | inr (cfg, e) ↦
          rw (Returns, should_drain, same, e)
            (
              le→ltb cfg.local_limit c'.total_len (omega (arith, total, roomy c cfg at_class e)),
              heads,
              refl,
            )
    ]
  where
    same : get_elem? (set_elem t.classes (index class) c') (index class) ≡ some c'
    same = get-set_same t.classes (index class) c' (get-some-lt t.classes (index class) c at_class)

push-Pushed :
    (debug : Bool) (m : Memory) (t : ThreadCache) (class : SizeClass) (block : ℕ)
    → Roomy t class
    → Returns (Pushed m t) (push_and_should_drain debug m t class block)
unfolding push_and_should_drain push
push-Pushed debug m t class block roomy = elim (Option-cases (get_elem? t.classes (index class))) [
  | inl e ↦ rw (Returns, push_and_should_drain, push, e) tt
  | inr (c, e) ↦ elim (Option-cases (Blocks.push_block debug m c block)) [
    | inl q ↦ rw (Returns, push_and_should_drain, push, e, q) tt
    | inr ((c', m'), q) ↦
        rw (push_and_should_drain, push, e, q)
          (limit-kept t class c c' m m' roomy e
            (Returns-some (λ (c', m'). Total (c.total_len + 1) c') _ (c', m')
              (push_block-Total debug m c block) q)
            (Returns-some (λ (c', m'). SameHeads m m') _ (c', m') (push_block-class debug m c block)
              q))
  ]
]

return_to_cache-Kept :
    (page_size : ℕ) (advise : ℕ → ℕ → Result ℕ Bool) (debug : Bool) (w : World) (class : SizeClass)
    (block : ℕ)
    → Roomy w.cache class
    → Returns (Kept w) (return_to_cache page_size advise debug w class block)
unfolding return_to_cache
return_to_cache-Kept page_size advise debug w class block roomy =
    Returns->>= (Pushed w.memory w.cache) (Kept w)
      (push_and_should_drain debug w.memory w.cache class block) _
      (push-Pushed debug w.memory w.cache class block roomy)
      (λ (drains, t, m) (calm, heads, owner).
        rw calm
          (record { heads = heads; arena = refl; identity = refl; config = refl; owner = owner }))

-- What staging a block and publishing staged ones comes to
abbrev Staged : Memory → ThreadCache → ThreadCache × Memory → Type 0
Staged m t (t', m') = SameHeads m m' × (t'.owner ≡ t.owner)

stage-Staged :
    (m : Memory) (t : ThreadCache) (class : SizeClass) (block : ℕ)
    → Returns (Staged m t) (push_remote_return m t class block)
unfolding push_remote_return
stage-Staged m t class block =
    Returns->>= (λ r. Unit {0}) (Staged m t) (get_elem? t.remote_returns (index class)) _
      (Returns-any (get_elem? t.remote_returns (index class)))
      (λ r h. (push_remote-SameHeads m r block, refl))

flush-Staged :
    (m : Memory) (t : ThreadCache) (class : SizeClass) (c : CentralPool)
    → Returns
        (λ (moved, t', c', m'). Staged m t (t', m'))
        (flush_remote_returns_for_class m t class c)
unfolding flush_remote_returns_for_class
flush-Staged m t class c = elim (Option-cases (get_elem? t.remote_returns (index class))) [
  | inl e ↦ rw (Returns, flush_remote_returns_for_class, e) tt
  | inr (r, e) ↦ elim (Bool-cases (RemoteReturns.is_empty r)) [
    | inl q ↦ rw (Returns, flush_remote_returns_for_class, e, q) (SameHeads-refl m, refl)
    | inr q ↦
        rw (flush_remote_returns_for_class, e)
          (rw q (
            Returns->>= (λ (b, r', m'). SameHeads m m') (λ (moved, t', c', m'). Staged m t (t', m'))
              (take_all_unchecked m r) _ (take_all-SameHeads m r)
              (λ (b, r', m') h.
                Returns->>= (λ (c', m''). SameHeads m' m'')
                  (λ (moved, t', c', m'). Staged m t (t', m')) (publish_remote_batch m' c class b) _
                  (publish-SameHeads m' c class b)
                  (λ (c', m'') h'. (SameHeads-trans m m' m'' h h', refl)))))
  ]
]

return_to_remote-Kept :
    (w : World) (class : SizeClass) (block : ℕ) → Returns (Kept w) (return_to_remote w class block)
unfolding return_to_remote
return_to_remote-Kept w class block =
    Returns->>= (Staged w.memory w.cache) (Kept w) (push_remote_return w.memory w.cache class block)
      _ (stage-Staged w.memory w.cache class block)
      (λ (t, m) (heads, owner).
        Returns->>= (λ b. Unit {0}) (Kept w) (should_flush_remote_returns t class) _
          (Returns-any (should_flush_remote_returns t class)) (λ b h. flushed t m heads owner b))
  where
    kept :
        (t : ThreadCache) (m : Memory) (c : CentralPool)
        → SameHeads w.memory m
        → t.owner ≡ (w.cache).owner
        → Kept w (record (with_central w c) { memory = m; cache = t })
    kept t m c heads owner = record {
      heads = heads;
      arena = refl;
      identity = refl;
      config = refl;
      owner = owner;
    }

    flushed :
        (t : ThreadCache) (m : Memory)
        → SameHeads w.memory m
        → t.owner ≡ (w.cache).owner
        → (b : Bool)
        → Returns (Kept w) (
            if b
            then (flush_remote_returns_for_class m t class (w.allocator).central
                >>= λ (moved, t', c', m').
                    some (record (with_central (record w { memory = m; cache = t }) c') {
                      memory = m';
                      cache = t';
                    }))
            else some (record w { memory = m; cache = t }))
    flushed t m heads owner false = kept t m (w.allocator).central heads owner
    flushed t m heads owner true =
        Returns->>= (λ (moved, t', c', m'). Staged m t (t', m')) (Kept w)
          (flush_remote_returns_for_class m t class (w.allocator).central) _
          (flush-Staged m t class (w.allocator).central)
          (λ (moved, t', c', m') (heads', owner').
            kept t' m' c' (SameHeads-trans w.memory m m' heads heads') (owner' ∙ owner))

-- A block that goes to another cache's blocks, or to a class of its own cache that has room, is routed
-- without a change to any prefix, marker, the arena or the owner.
pub route-Kept :
    (page_size : ℕ) (advise : ℕ → ℕ → Result ℕ Bool) (debug : Bool) (w : World) (class : SizeClass)
    (block owner_cache_id : ℕ)
    → (owner_cache_id ≡ (w.cache).cache_id → Roomy w.cache class)
    → Returns (Kept w) (route_small_freed_block page_size advise debug w class block owner_cache_id)
unfolding route_small_freed_block
route-Kept page_size advise debug w class block owner_cache_id roomy =
    elim (Bool-cases (owner_cache_id == (w.cache).cache_id)) [
      | inl e ↦
          rw (route_small_freed_block, e)
            (return_to_cache-Kept page_size advise debug w class block
              (roomy (==→eq owner_cache_id (w.cache).cache_id e)))
      | inr e ↦ rw (route_small_freed_block, e) (return_to_remote-Kept w class block)
    ]
