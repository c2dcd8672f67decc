-- ===== src/CentralPool/Inbox.antt =====
-- `RemoteReturnInbox` of src/central_pool.rs: blocks that other threads freed, until the pool of their
-- class is locked next.
use orthotope.Prelude.{ℕ, ◌+◌, Option, some, ◌==◌, if◌then◌else◌}
use orthotope.Prelude.Panics.{◌>>=◌}
use orthotope.Header.Memory.{Memory}
use orthotope.FreeList.{FreeList, Batch, empty_batch, pop_batch_unchecked}
use orthotope.FreeList

pub record RemoteReturnInbox : Type 0 where
  pub pending : FreeList
  pub pending_len : ℕ

unfoldable pub new : RemoteReturnInbox
new = record { pending = FreeList.new; pending_len = 0 }

unfoldable pub push_batch : Memory → RemoteReturnInbox → Batch → Option (RemoteReturnInbox × Memory)
push_batch m inbox b = if b.len == 0 then some (inbox, m) else do
  (pending, m') ← FreeList.push_batch m inbox.pending b
  some (record { pending = pending; pending_len = inbox.pending_len + b.len }, m')

unfoldable pub take_pending :
    Memory → RemoteReturnInbox → Option (Batch × RemoteReturnInbox × Memory)
take_pending m inbox = if inbox.pending_len == 0 then some (empty_batch, inbox, m) else do
  (b, pending, m') ← pop_batch_unchecked m inbox.pending inbox.pending_len
  some (b, record { pending = pending; pending_len = 0 }, m')
