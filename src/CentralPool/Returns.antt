-- ===== src/CentralPool/Returns.antt =====
-- What the inbox and one slab of src/central_pool.rs hold, as lists of block addresses.
use orthotope.Prelude.{
  ℕ, ◌+◌, ◌≡◌, refl, subst, ap, some, List, [], ◌∷◌, ◌++◌, arith, length, length-append, take, drop,
  ne→==,
}
use orthotope.Header.Memory.{Memory}
use orthotope.FreeList.{Batch}
use orthotope.FreeList.Chain.{Distinct}
use orthotope.FreeList.Stack.{IsList}
use orthotope.FreeList.Batches.{IsBatch, pop_batch-IsBatch, push_batch-IsList}
use orthotope.CentralPool.Inbox.{RemoteReturnInbox, take_pending}
use orthotope.CentralPool.Inbox

-- The inbox holds exactly the blocks `xs`, and its counter is their number.
pub record IsInbox (m : Memory) (inbox : RemoteReturnInbox) (xs : List ℕ) : Type 0 where
  pub pending : IsList m inbox.pending xs
  pub count : inbox.pending_len ≡ length xs

take_all : (xs : List ℕ) → (take (length xs) xs ≡ xs) × (drop (length xs) xs ≡ [])
take_all [] = (refl, refl)
take_all (x ∷ xs) = let (front, back) = take_all xs in (ap (◌∷◌ x) front, back)

-- A batch that is published to an inbox, its blocks distinct from one another and from those that
-- wait, goes in front of them, and the next lock of the pool takes all of them out as one batch,
-- which leaves the inbox empty.
pub take_pending-push_batch :
    (m : Memory) (inbox : RemoteReturnInbox) (b : Batch) (x : ℕ) (xs ys : List ℕ)
    → IsInbox m inbox ys
    → IsBatch m b (x ∷ xs)
    → Distinct (x ∷ xs ++ ys)
    → (inbox' inbox'' : RemoteReturnInbox) × (all : Batch) × (m' m'' : Memory) × (Inbox.push_batch m
          inbox b
        ≡ some (inbox', m'))
      × IsInbox m' inbox' (x ∷ xs ++ ys)
      × (take_pending m' inbox' ≡ some (all, inbox'', m''))
      × IsBatch m'' all (x ∷ xs ++ ys)
      × IsInbox m'' inbox'' []
unfolding Inbox.push_batch take_pending
take_pending-push_batch m inbox b x xs ys is bat d =
    let (l, m', pushed, both, _) =
      push_batch-IsList m inbox.pending b (x ∷ xs) ys bat is.pending d in
    let n = inbox.pending_len + b.len in
    let (whole, rest) = take_all (x ∷ xs ++ ys) in
    let same : n ≡ length (x ∷ xs ++ ys) =
      omega (arith, is.count, bat.count, length-append xs ys) in
    let (all, l', m'', popped, front, back, _) =
      pop_batch-IsBatch m' l x (xs ++ ys) n both (omega arith) in
    (
      record { pending = l; pending_len = n },
      record { pending = l'; pending_len = 0 },
      all,
      m',
      m'',
      rw (ne→== b.len 0 (omega (arith, bat.count)), pushed),
      record { pending = both; count = same },
      rw (ne→== n 0 (omega arith), popped),
      subst (IsBatch m'' all) whole
          (subst (λ k. IsBatch m'' all (take k (x ∷ xs ++ ys))) same front),
      record {
        pending =
            subst (IsList m'' l') rest
              (subst (λ k. IsList m'' l' (drop k (x ∷ xs ++ ys))) same back);
        count = refl;
      },
    )
