-- ===== src/CentralPool.antt =====
-- src/central_pool.rs: the shared pool of slabs for each class, and the inboxes for remote frees.
-- CentralPool/Slab.antt has `SlabRecord`; CentralPool/Pool.antt, CentralPool/Sweep.antt and
-- CentralPool/Exchange.antt have `ClassPool`. The mutexes make each operation one step. `none` is a panic
-- or a broken contract.
pub mod Slab
pub mod Pool
pub mod SlabStates
pub mod Sweep
pub mod Exchange
pub mod Inbox
pub mod Returns
pub mod Conserve
pub mod ReturnCount
pub mod Lookup
pub mod RefillCount
pub mod Tests
use orthotope.Prelude.{
  ℕ, zero, suc, ◌+◌, Bool, Option, none, some, List, [], ◌∷◌, ◌==◌, if◌then◌else◌, get_elem?,
  set_elem, Result,
}
use orthotope.Prelude.Panics.{◌>>=◌}
use orthotope.Header.Memory.{Memory}
use orthotope.SizeClass.{SizeClass, num_classes, index}
use orthotope.FreeList.{Batch, batch_is_empty}
use orthotope.CentralPool.Pool.{ClassPool, CentralRefill}
use orthotope.CentralPool.Inbox.{RemoteReturnInbox, push_batch, take_pending}
use orthotope.CentralPool.Pool
use orthotope.CentralPool.Exchange
use orthotope.CentralPool.Inbox

pub record CentralPool : Type 0 where
  pub lists : List ClassPool
  pub remote_inboxes : List RemoteReturnInbox

-- `array::from_fn` of a function that ignores the index
abbrev pub repeat {ℓ} : {A : Type ℓ} → ℕ → A → List A
repeat zero x = []
repeat (suc n) x = x ∷ repeat n x

unfoldable pub new : CentralPool
new = record { lists = repeat num_classes Pool.new; remote_inboxes = repeat num_classes Inbox.new }

-- `self.lists[i] = p` and `self.remote_inboxes[i] = inbox`
abbrev pub with_list : CentralPool → ℕ → ClassPool → CentralPool
with_list c i p = record c { lists = set_elem c.lists i p }

abbrev pub with_inbox : CentralPool → ℕ → RemoteReturnInbox → CentralPool
with_inbox c i inbox = record c { remote_inboxes = set_elem c.remote_inboxes i inbox }

unfoldable pub publish_remote_batch :
    Memory → CentralPool → SizeClass → Batch → Option (CentralPool × Memory)
publish_remote_batch m c class published = do
  inbox ← get_elem? c.remote_inboxes (index class)
  (inbox', m') ← push_batch m inbox published
  some (with_inbox c (index class) inbox', m')

module _ (page_size : ℕ) (advise : ℕ → ℕ → Result ℕ Bool) where
  unfoldable pub register_slab :
      CentralPool → SizeClass → (start block_size capacity : ℕ) → Option CentralPool
  register_slab c class start block_size capacity = do
    p ← get_elem? c.lists (index class)
    p' ← Exchange.register_slab page_size advise p start block_size capacity
    some (with_list c (index class) p')

  -- The pool of the class is locked; the inbox is emptied into it.
  unfoldable pub drain_remote_inbox : Memory → CentralPool → ℕ → Option (CentralPool × Memory)
  drain_remote_inbox m c i = do
    inbox ← get_elem? c.remote_inboxes i
    (pending, inbox', m') ← take_pending m inbox
    let emptied = with_inbox c i inbox'
    if batch_is_empty pending then some (emptied, m') else do
      p ← get_elem? c.lists i
      (p', m'') ← Exchange.return_batch page_size advise m' p pending
      some (with_list emptied i p', m'')

  unfoldable pub take_refill :
      Memory → CentralPool → SizeClass → ℕ → Option (CentralRefill × CentralPool × Memory)
  unfolding drain_remote_inbox
  take_refill m c class max = do
    (drained, m') ← drain_remote_inbox m c (index class)
    p ← get_elem? drained.lists (index class)
    (refill, p', m'') ← Exchange.take_refill page_size advise m' p max
    some (refill, with_list drained (index class) p', m'')

  unfoldable pub return_batch :
      Memory → CentralPool → SizeClass → Batch → Option (CentralPool × Memory)
  unfolding drain_remote_inbox
  return_batch m c class returned = do
    (drained, m') ← drain_remote_inbox m c (index class)
    p ← get_elem? drained.lists (index class)
    (p', m'') ← Exchange.return_batch page_size advise m' p returned
    some (with_list drained (index class) p', m'')

-- The blocks of each class: those of its pool and those that wait in its inbox
unfoldable pub block_counts : List ClassPool → List RemoteReturnInbox → List ℕ
block_counts [] inboxes = []
block_counts (p ∷ ps) [] = []
block_counts (p ∷ ps) (inbox ∷ inboxes) =
    (Exchange.central_block_count p + inbox.pending_len) ∷ block_counts ps inboxes
