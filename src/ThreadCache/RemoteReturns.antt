-- ===== src/ThreadCache/RemoteReturns.antt =====
-- `RemoteReturnCache` of src/thread_cache.rs: blocks of other threads that this thread freed, until they are
-- published.
use orthotope.Prelude.{ℕ, ◌+◌, Bool, Option, some, ◌==◌}
use orthotope.Prelude.Panics.{◌>>=◌}
use orthotope.Header.Memory.{Memory}
use orthotope.FreeList.{FreeList, Batch, pop_batch_unchecked}
use orthotope.FreeList

pub record RemoteReturnCache : Type 0 where
  pub pending : FreeList
  pub pending_len : ℕ

unfoldable pub new : RemoteReturnCache
new = record { pending = FreeList.new; pending_len = 0 }

unfoldable pub is_empty : RemoteReturnCache → Bool
is_empty r = r.pending_len == 0

unfoldable pub push_block : Memory → RemoteReturnCache → ℕ → RemoteReturnCache × Memory
push_block m r block =
    let (pushed, m') = FreeList.push_block m r.pending block in
    (record { pending = pushed; pending_len = r.pending_len + 1 }, m')

unfoldable pub take_all_unchecked :
    Memory → RemoteReturnCache → Option (Batch × RemoteReturnCache × Memory)
take_all_unchecked m r = do
  (batch, left, m') ← pop_batch_unchecked m r.pending r.pending_len
  some (batch, record { pending = left; pending_len = 0 }, m')
