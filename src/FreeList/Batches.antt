-- ===== src/FreeList/Batches.antt =====
-- `pop_batch` and `push_batch` of src/free_list.rs split and join lists of addresses.
use orthotope.Prelude.{
  ℕ, zero, suc, ◌+◌, ◌-◌, ◌<◌, min, ◌≡◌, refl, ap, ◌≢◌, none, some, List, [], ◌∷◌, ◌++◌, arith,
  length, take, drop, length-append, length-take, length-drop, take-append-drop, ne→==, subst, sym,
  ◌∙◌, ◌==◌, if◌then◌else◌,
}
use orthotope.Header.Memory.{Memory, read_small_free_list_next, write_small_free_list_next}
use orthotope.Header.Marker.{link_frame}
use orthotope.FreeList.{
  FreeList, Batch, push_batch, pop_batch_unchecked, batch_pop_block_unchecked, from_single,
}
use orthotope.FreeList.Chain.{
  Fresh, Distinct, Chain, last?, read-write_self, Chain-splice, Cut, walk-Cut, Fresh-last,
  Fresh-take, Distinct-take, Distinct-drop,
}
use orthotope.FreeList.Stack.{IsList}

-- In memory `m` the batch `b` holds exactly the blocks `xs`, and knows the last of them.
pub record IsBatch (m : Memory) (b : Batch) (xs : List ℕ) : Type 0 where
  pub chain : Chain m b.head xs none
  pub tail : b.tail ≡ last? xs
  pub count : b.len ≡ length xs
  pub distinct : Distinct xs

-- A count beyond the end splits a list as its length does.
clamp :
    (xs : List ℕ) (t n : ℕ)
    → t ≡ min n (length xs)
    → (take t xs ≡ take n xs) × (drop t xs ≡ drop n xs)
clamp [] zero zero e = (refl, refl)
clamp [] zero (suc n) e = (refl, refl)
clamp [] (suc t) n e = absurd (omega arith)
clamp (x ∷ xs) zero zero e = (refl, refl)
clamp (x ∷ xs) zero (suc n) e = absurd (omega arith)
clamp (x ∷ xs) (suc t) zero e = absurd (omega arith)
clamp (x ∷ xs) (suc t) (suc n) e =
    let (front, back) = clamp xs t n (omega arith) in (ap (◌∷◌ x) front, back)

-- From a list that is not empty, a batch of at most `max` blocks, where `max` is not zero, comes
-- off the front in order, and the rest stays: the list is cut behind `take max`. No header
-- outside the list is written.
pub pop_batch-IsBatch :
    (m : Memory) (l : FreeList) (x : ℕ) (xs : List ℕ) (max : ℕ)
    → IsList m l (x ∷ xs)
    → 0 < max
    → (b : Batch) × (l' : FreeList) × (m' : Memory) × (pop_batch_unchecked m l max
        ≡ some (b, l', m'))
      × IsBatch m' b (take max (x ∷ xs))
      × IsList m' l' (drop max (x ∷ xs))
      × ((a : ℕ) → Fresh a (x ∷ xs) → m' a ≡ m a)
unfolding pop_batch_unchecked
pop_batch-IsBatch m l x xs max is pos =
    let r = min max l.len - 1 in
    let cut : Cut m x xs r =
      walk-Cut m r x xs (refl, is.chain.1, is.chain.2) is.distinct (omega (arith, is.count)) in
    let (front, back) = clamp (x ∷ xs) (suc r) max (omega (arith, is.count)) in
    let m' = write_small_free_list_next m cut.tail none in
    (
      record { head = some x; tail = some cut.tail; len = min max l.len },
      record { head = read_small_free_list_next m cut.tail; len = l.len - min max l.len },
      m',
      rw (
        ne→== max 0 (omega arith),
        ne→== l.len 0 (omega (arith, is.count)),
        is.chain.0,
        cut.reached,
      ),
      record {
        chain = subst (λ ys. Chain m' (some x) ys none) front cut.front;
        tail = sym cut.is_last ∙ ap last? front;
        count = omega (arith, is.count, length-take max (x ∷ xs));
        distinct = Distinct-take max (x ∷ xs) is.distinct;
      },
      record {
        chain = subst (λ ys. Chain m' (read_small_free_list_next m cut.tail) ys none) back cut.back;
        count = omega (arith, is.count, length-drop max (x ∷ xs));
        distinct = Distinct-drop max (x ∷ xs) is.distinct;
      },
      λ a fresh. (link_frame m cut.tail a none).2 (λ e.
          Fresh-last a cut.tail (take (suc r) (x ∷ xs)) (Fresh-take a (suc r) (x ∷ xs) fresh)
            cut.is_last (sym e)),
    )

last-cons : (x : ℕ) (xs : List ℕ) → (y : ℕ) × (last? (x ∷ xs) ≡ some y)
last-cons x [] = (x, refl)
last-cons x (z ∷ zs) = last-cons z zs

-- A batch whose blocks are distinct from one another and from those of the list goes in front of
-- the list, in order. No header outside the batch is written.
pub push_batch-IsList :
    (m : Memory) (l : FreeList) (b : Batch) (xs ys : List ℕ)
    → IsBatch m b xs
    → IsList m l ys
    → Distinct (xs ++ ys)
    → (l' : FreeList) × (m' : Memory) × (push_batch m l b ≡ some (l', m'))
      × IsList m' l' (xs ++ ys)
      × ((a : ℕ) → Fresh a xs → m' a ≡ m a)
unfolding push_batch
push_batch-IsList m l b [] ys bat is d = (l, m, rw bat.count, is, λ a f. refl)
push_batch-IsList m l b (x ∷ xs) ys bat is d =
    let (y, e) = last-cons x xs in
    let m' = write_small_free_list_next m y l.head in
    (
      record { head = some x; len = l.len + b.len },
      m',
      rw (ne→== b.len 0 (omega (arith, bat.count)), bat.chain.0, bat.tail, e),
      record {
        chain =
            Chain-splice m y l.head (x ∷ xs) ys (some x) (refl, bat.chain.1, bat.chain.2) e is.chain
              d;
        count = omega (arith, bat.count, is.count, length-append xs ys);
        distinct = d;
      },
      λ a fresh. (link_frame m y a l.head).2 (λ s. Fresh-last a y (x ∷ xs) fresh e (sym s)),
    )

-- From a list that is not empty, taking a batch of at most `max` blocks off, where `max` is not
-- zero, and putting it back gives a list of the same blocks in the same order.
pub push-pop_batch :
    (m : Memory) (l : FreeList) (x : ℕ) (xs : List ℕ) (max : ℕ)
    → IsList m l (x ∷ xs)
    → 0 < max
    → (b : Batch) × (l' : FreeList) × (m' : Memory) × (l'' : FreeList) × (m'' : Memory)
      × (pop_batch_unchecked m l max ≡ some (b, l', m'))
      × (push_batch m' l' b ≡ some (l'', m''))
      × IsList m'' l'' (x ∷ xs)
push-pop_batch m l x xs max is pos =
    let (b, l', m', popped, front, back, _) = pop_batch-IsBatch m l x xs max is pos in
    let whole = take-append-drop max (x ∷ xs) in
    let (l'', m'', pushed, both, _) =
      push_batch-IsList m' l' b (take max (x ∷ xs)) (drop max (x ∷ xs)) front back
        (subst Distinct (sym whole) is.distinct) in
    (b, l', m', l'', m'', popped, pushed, subst (IsList m'' l'') whole both)

-- A batch that is not empty gives up its first block and becomes the batch of the others, which
-- knows their last block, or none if there is no other.
pub batch_pop-IsBatch :
    (m : Memory) (b : Batch) (x : ℕ) (xs : List ℕ)
    → IsBatch m b (x ∷ xs)
    → (b' : Batch) × (batch_pop_block_unchecked m b ≡ some (x, b')) × IsBatch m b' xs
unfolding batch_pop_block_unchecked
batch_pop-IsBatch m b x xs is = (
  record {
    head = read_small_free_list_next m x;
    tail = if b.len - 1 == 0 then none else b.tail;
    len = b.len - 1;
  },
  rw (ne→== b.len 0 (omega (arith, is.count)), is.chain.0),
  record {
    chain = is.chain.2;
    tail = rest xs is.tail is.count;
    count = omega (arith, is.count);
    distinct = is.distinct.1;
  },
)
  where
    rest :
        (zs : List ℕ)
        → b.tail ≡ last? (x ∷ zs)
        → b.len ≡ suc (length zs)
        → (if b.len - 1 == 0 then none else b.tail) ≡ last? zs
    rest [] t c = rw c
    rest (z ∷ zs) t c = rw (ne→== (b.len - 1) 0 (omega arith)) t

-- One detached block is a batch of itself.
pub from_single-IsBatch :
    (m : Memory) (block : ℕ)
    → block ≢ 0
    → IsBatch (from_single m block).1 (from_single m block).0 (block ∷ [])
unfolding from_single
from_single-IsBatch m block ne = record {
  chain = (refl, ne, read-write_self m block none);
  tail = refl;
  count = refl;
  distinct = (tt, tt);
}
