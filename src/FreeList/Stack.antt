-- ===== src/FreeList/Stack.antt =====
-- `push_block` and `pop_block` of src/free_list.rs refine a stack of addresses.
use orthotope.Prelude.{
  ℕ, ◌+◌, ◌-◌, ◌≡◌, refl, ◌≢◌, ◌⊎◌, inl, inr, none, some, List, [], ◌∷◌, arith, length, ne→==,
}
use orthotope.Header.Memory.{Memory, read_small_free_list_next}
use orthotope.Header.Marker.{link_frame}
use orthotope.FreeList.{FreeList, new, push_block, pop_block_unchecked, pop_block}
use orthotope.FreeList.Chain.{Fresh, Distinct, Chain, read-write_self, Chain-write, Chain-start}

-- In memory `m` the list `l` holds exactly the blocks `xs`, first to last, each once.
pub record IsList (m : Memory) (l : FreeList) (xs : List ℕ) : Type 0 where
  pub chain : Chain m l.head xs none
  pub count : l.len ≡ length xs
  pub distinct : Distinct xs

pub new-IsList : (m : Memory) → IsList m new []
unfolding new
new-IsList m = record { chain = refl; count = refl; distinct = tt }

-- Pushing a block that is not null and not on the list puts it in front, and changes no other
-- header.
pub push_block-IsList :
    (m : Memory) (l : FreeList) (xs : List ℕ) (block : ℕ)
    → IsList m l xs
    → block ≢ 0
    → Fresh block xs
    → IsList (push_block m l block).1 (push_block m l block).0 (block ∷ xs)
      × ((a : ℕ) → a ≢ block → (push_block m l block).1 a ≡ m a)
unfolding push_block
push_block-IsList m l xs block is ne fresh = (
  record {
    chain = (
      refl,
      ne,
      rw (read-write_self m block l.head, Chain-start m l.head xs is.chain)
          (Chain-write m block l.head l.head none xs fresh is.chain),
    );
    count = omega (arith, is.count);
    distinct = (fresh, is.distinct);
  },
  λ a other. (link_frame m block a l.head).2 other,
)

-- Popping takes the first block off and leaves the rest.
pub pop_block_unchecked-IsList :
    (m : Memory) (l : FreeList) (x : ℕ) (xs : List ℕ)
    → IsList m l (x ∷ xs)
    → (l' : FreeList) × (pop_block_unchecked m l ≡ some (x, l')) × IsList m l' xs
unfolding pop_block_unchecked
pop_block_unchecked-IsList m l x xs is = (
  record { head = read_small_free_list_next m x; len = l.len - 1 },
  rw (ne→== l.len 0 (omega (arith, is.count)), is.chain.0),
  record { chain = is.chain.2; count = omega (arith, is.count); distinct = is.distinct.1 },
)

-- The checked pop never breaks the contract of the unchecked one: on an empty list it returns
-- nothing and changes nothing, and otherwise it takes the first block off and leaves the rest.
pub pop_block-IsList :
    (m : Memory) (l : FreeList) (xs : List ℕ)
    → IsList m l xs
    → ((xs ≡ []) × (pop_block m l ≡ some (none, l)))
      ⊎ ((x : ℕ) × (ys : List ℕ) × (l' : FreeList) × (xs ≡ x ∷ ys)
          × (pop_block m l ≡ some (some x, l'))
          × IsList m l' ys)
unfolding pop_block
pop_block-IsList m l [] is = inl (refl, ground (arith, is.count))
pop_block-IsList m l (x ∷ xs) is = inr (
  x,
  xs,
  record { head = read_small_free_list_next m x; len = l.len - 1 },
  refl,
  rw (ne→== l.len 0 (omega (arith, is.count)), is.chain.0),
  record { chain = is.chain.2; count = omega (arith, is.count); distinct = is.distinct.1 },
)

-- A block that is not null and is pushed onto a list is popped next, and the list is as before.
pub pop-push :
    (m : Memory) (l : FreeList) (xs : List ℕ) (block : ℕ)
    → IsList m l xs
    → block ≢ 0
    → pop_block_unchecked (push_block m l block).1 (push_block m l block).0 ≡ some (block, l)
unfolding pop_block_unchecked push_block
pop-push m l xs block is ne =
    rw
      (
        ne→== (l.len + 1) 0 (omega arith),
        read-write_self m block l.head,
        Chain-start m l.head xs is.chain,
      )
      (ground arith)
