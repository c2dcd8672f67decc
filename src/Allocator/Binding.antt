-- ===== src/Allocator/Binding.antt =====
-- `bind_to_allocator` of src/thread_cache.rs, which every entry point of src/allocator.rs calls first.
use orthotope.Prelude.{
  ℕ, zero, suc, ◌<◌, ◌≡◌, ◌≢◌, refl, ap, sym, subst, ◌⊎◌, inl, inr, Bool, true, false, Option, none,
  some, List, [], ◌∷◌, get_elem?, ◌==◌, Bool-cases, eq→==, ne→==, arith,
}
use orthotope.Prelude.Search.{partition_point}
use orthotope.Config.{AllocatorConfig}
use orthotope.SizeClass.{num_classes}
use orthotope.CentralPool.{repeat}
use orthotope.ThreadCache.ClassCache.{LocalClassCache}
use orthotope.ThreadCache.ClassCache
use orthotope.ThreadCache.Blocks.{recent_with, find_slab}
use orthotope.ThreadCache.RemoteReturns.{RemoteReturnCache}
use orthotope.ThreadCache.RemoteReturns
use orthotope.ThreadCache.Rounds.{IsAccounted}
use orthotope.ThreadCache.Filling.{new-IsAccounted}
use orthotope.ThreadCache.{
  ThreadCache, all_of, new, is_empty, reset_for_rebind, is_owner, bind_to_allocator,
}
use orthotope.Allocator.{World}

-- The cache belongs to another allocator, or to none yet.
abbrev pub Foreign : ThreadCache → ℕ → Type 0
Foreign t id = t.owner ≢ some id

-- No class of the cache counts a block, of its own or to be returned.
abbrev pub HoldsNothing : ThreadCache → Type 0
HoldsNothing t =
    ((k : ℕ) (c : LocalClassCache) → get_elem? t.classes k ≡ some c → c.total_len ≡ 0)
    × ((k : ℕ) (r : RemoteReturnCache) → get_elem? t.remote_returns k ≡ some r → r.pending_len ≡ 0)

all_of-true :
    {A : Type 0} (f : A → Bool) (xs : List A)
    → ((k : ℕ) (x : A) → get_elem? xs k ≡ some x → f x ≡ true)
    → all_of f xs ≡ true
all_of-true f [] h = refl
all_of-true f (x ∷ xs) h =
    let first = h 0 x refl in
    let rest = all_of-true f xs (λ k y e. h (suc k) y e) in rw (first, rest) refl

all_of-false :
    {A : Type 0} (f : A → Bool) (xs : List A) (k : ℕ) (x : A)
    → get_elem? xs k ≡ some x
    → f x ≡ false
    → all_of f xs ≡ false
all_of-false f [] k x e h = cc
all_of-false f (y ∷ ys) zero x e h = let here : y ≡ x = cc in rw (here, h) refl
all_of-false f (y ∷ ys) (suc k) x e h = elim (Bool-cases (f y)) [
  | inl t ↦ rw t (all_of-false f ys k x e h)
  | inr n ↦ rw n refl
]

pub repeat-get : {A : Type 0} (n k : ℕ) (x y : A) → get_elem? (repeat n x) k ≡ some y → y ≡ x
repeat-get zero k x y e = cc
repeat-get (suc n) zero x y e = cc
repeat-get (suc n) (suc k) x y e = repeat-get n k x y e

is_owner_self : (id : ℕ) → is_owner (some id) id ≡ true
is_owner_self id = eq→== id id refl

is_owner-foreign : (o : Option ℕ) (id : ℕ) → o ≢ some id → is_owner o id ≡ false
is_owner-foreign none id h = refl
is_owner-foreign (some owner) id h = ne→== owner id (λ e. h (ap some e))

empty-HoldsNothing : (t : ThreadCache) → HoldsNothing t → is_empty t ≡ true
unfolding is_empty ClassCache.is_empty RemoteReturns.is_empty
empty-HoldsNothing t (own, returns) =
    rw
      (
        all_of-true (λ (c : LocalClassCache). c.total_len == 0) t.classes
            (λ k c e. eq→== c.total_len 0 (own k c e)),
        all_of-true (λ (r : RemoteReturnCache). r.pending_len == 0) t.remote_returns
            (λ k r e. eq→== r.pending_len 0 (returns k r e)),
      )
      refl

-- A cache that was made just now and belongs to the allocator
abbrev pub fresh : (cache_id id : ℕ) → AllocatorConfig → ThreadCache
fresh cache_id id cfg = record ((new cache_id cfg).0) { owner = some id }

-- No class of the cache takes a block for one of a slab of its own.
abbrev pub KnowsNoSlab : ThreadCache → Type 0
KnowsNoSlab t =
    (k : ℕ) (c : LocalClassCache) (debug : Bool) (block : ℕ)
    → get_elem? t.classes k ≡ some c
    → (recent_with debug c block ≡ some none) × (find_slab debug c block ≡ some none)

fresh-KnowsNoSlab : (cache_id id : ℕ) (cfg : AllocatorConfig) → KnowsNoSlab (fresh cache_id id cfg)
unfolding new recent_with find_slab partition_point ClassCache.new
fresh-KnowsNoSlab cache_id id cfg k c debug block e =
    rw (repeat-get num_classes k ClassCache.new c e) (refl, refl)

-- A cache that belongs to another allocator, or to none, and counts no block in any class is bound: it
-- becomes what a cache made just now with the allocator's configuration and the same cache id is once it
-- belongs to the allocator. So nothing is left of its former life: in none of its classes does the test of
-- the recent slab or the search by start take any block for one of a slab. The counts of all its classes
-- are in order. From then on, binding it to that allocator again changes nothing, with whatever
-- configuration.
pub bind_to_allocator-fresh :
    (t : ThreadCache) (id : ℕ) (cfg : AllocatorConfig)
    → Foreign t id
    → HoldsNothing t
    → (t' : ThreadCache) × (bind_to_allocator t id cfg ≡ some t')
      × (t' ≡ fresh t.cache_id id cfg)
      × KnowsNoSlab t'
      × ((k : ℕ) (c : LocalClassCache) → get_elem? t'.classes k ≡ some c → IsAccounted c)
      × ((other : AllocatorConfig) → bind_to_allocator t' id other ≡ some t')
unfolding bind_to_allocator reset_for_rebind new
bind_to_allocator-fresh t id cfg foreign nothing = (
  fresh t.cache_id id cfg,
  rw (is_owner-foreign t.owner id foreign, empty-HoldsNothing t nothing) refl,
  refl,
  fresh-KnowsNoSlab t.cache_id id cfg,
  λ k c e. subst IsAccounted (sym (repeat-get num_classes k ClassCache.new c e)) new-IsAccounted,
  λ other. rw (is_owner_self id) refl,
)

-- A cache that belongs to another allocator, or to none, and counts a block in some class, of its own or to
-- be returned, is not bound: the call panics.
pub bind_to_allocator-refuses :
    (t : ThreadCache) (id : ℕ) (cfg : AllocatorConfig)
    → Foreign t id
    → ((k : ℕ) × (c : LocalClassCache) × (get_elem? t.classes k ≡ some c) × (0 < c.total_len))
      ⊎ ((k : ℕ) × (r : RemoteReturnCache) × (get_elem? t.remote_returns k ≡ some r)
          × (0 < r.pending_len))
    → bind_to_allocator t id cfg ≡ none
unfolding bind_to_allocator is_empty ClassCache.is_empty RemoteReturns.is_empty
bind_to_allocator-refuses t id cfg foreign (inl (k, c, e, some_left)) =
    rw
      (
        is_owner-foreign t.owner id foreign,
        all_of-false (λ (c : LocalClassCache). c.total_len == 0) t.classes k c e
            (ne→== c.total_len 0 (omega arith)),
      )
      refl
bind_to_allocator-refuses t id cfg foreign (inr (k, r, e, some_left)) =
    rw
      (
        is_owner-foreign t.owner id foreign,
        all_of-false (λ (r : RemoteReturnCache). r.pending_len == 0) t.remote_returns k r e
            (ne→== r.pending_len 0 (omega arith)),
      )
      (elim (Bool-cases (all_of (λ (c : LocalClassCache). c.total_len == 0) t.classes)) [
        | inl b ↦ rw b refl
        | inr b ↦ rw b refl
      ])

-- The cache belongs to the allocator.
abbrev pub Owned : World → Type 0
Owned w = (w.cache).owner ≡ some (w.allocator).id

pub bind-Owned :
    (w : World)
    → Owned w
    → bind_to_allocator w.cache (w.allocator).id (w.allocator).config ≡ some w.cache
unfolding bind_to_allocator
bind-Owned w own = rw (bind_to_allocator, own, is_owner_self (w.allocator).id) refl
