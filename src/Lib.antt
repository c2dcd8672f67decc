-- ===== src/Lib.antt =====
-- A model of the orthotope allocator (src/ of the repository) and what is proved of it.
--
-- The allocator serves small requests from fixed size classes and large ones one by one. All memory
-- comes from one pre-mapped arena whose cursor only moves forward. Every block begins with a 64-byte
-- header that says which class it has, and the user pointer is 64 bytes further on. Freed small
-- blocks are linked through their headers into free lists, which thread caches and the central pool
-- exchange as batches; freed large blocks go to a pool ordered by size.
--
-- SizeClass.antt    src/size_class.rs: classes, payloads, block sizes, dense index
-- Config.antt       src/config.rs: the configuration and the counts that it derives
-- Errors.antt       src/error.rs: the error types
-- Header.antt       src/header.rs: the header's fields, encoding, validation, pointer conversions;
--                   Header/Memory.antt has the reads and writes
-- FreeList.antt     src/free_list.rs: FreeList and Batch
-- Arena.antt        src/arena.rs: Arena, reserve_span, reserve_block_span, page ranges;
--                   Arena/Concurrent.antt has the compare-and-exchange loops as steps of workers
-- CentralPool.antt  src/central_pool.rs: CentralPool. CentralPool/Slab.antt has SlabRecord, Inbox.antt
--                   RemoteReturnInbox, and Pool.antt, Sweep.antt and Exchange.antt ClassPool
-- ThreadCache.antt  src/thread_cache.rs: ThreadCache. ThreadCache/LocalSlab.antt has LocalSlab, ClassCache.antt
--                   and Blocks.antt LocalClassCache, RemoteReturns.antt RemoteReturnCache, and Drains.antt
--                   the exchange with the central pool
-- Allocator.antt    src/allocator.rs: the composition of arena, central pool, large objects and a cache;
--                   Allocator/Small.antt and Large.antt allocate, Free.antt frees
-- Stats.antt        src/stats.rs: the snapshots
-- GlobalAlloc.antt  src/global_alloc.rs: the choice of the backend and the fallback blocks
-- Api.antt          src/api.rs and src/lib.rs: the functions of the process
-- LargeObject.antt  src/large_object.rs: the registry of live blocks and the pool of freed ones
-- Prelude.antt      shared tests on numbers, list lemmas, results, machine words, rounding, bits
--
-- Each function of the source is the definition of the same name. Addresses and sizes are natural
-- numbers; an operation of the source that wraps or checks for overflow has the bound 2 ^ 64 written
-- out (Prelude/Word.antt), the one of a 64-bit target. Memory is a function from block addresses to
-- headers, passed from call to call; only headers are read or written by the modelled code. A call
-- whose contract is broken, or that panics, gives `none`. Whether debug assertions are on is an
-- argument where the source behaves differently; the assertions of src/central_pool.rs and
-- src/thread_cache.rs are left out.
--
-- A loop that follows links counts the rounds that the source counts, so it needs no fuel. The loop
-- that drains a class of a thread cache has as many rounds as the class has blocks. The loops of the
-- arena repeat until an exchange succeeds; each round is a step, and a schedule of any length decides
-- who moves and which exchanges fail by chance.
--
-- Parameters: the anonymous mapping, the page size that the system reports, the system's allocator,
-- and the memory advice call, which leaves the headers of the pages that it is given as they are. Each
-- mutex makes the operations under it single steps. The hash map and the ordered map of the standard
-- library are lists of entries.
--
-- Not modelled: ThreadCacheHandle of src/thread_cache.rs, with the teardown of a thread; the texts of
-- errors; the benchmarks and examples. Calls of different threads on one allocator follow one another.
pub mod Prelude
pub mod SizeClass
pub mod Config
pub mod Errors
pub mod Header
pub mod FreeList
pub mod Arena
pub mod LargeObject
pub mod CentralPool
pub mod Stats
pub mod ThreadCache
pub mod Allocator
pub mod GlobalAlloc
pub mod Api
