-- ===== src/QMemPool.antt =====
-- The memory pool over a local and a shared queue: kernel/include/linux/qmempool.h and
-- kernel/mm/qmempool.c.
pub mod Ops
pub mod Create
pub mod Destroy
pub mod Lifetime
pub mod Queues
pub mod Pool
pub mod Sharing
pub mod Slab
pub mod Refill
pub mod Null
pub mod Roundtrip
pub mod Count
pub mod Conserved
pub mod Cpus
pub mod Held
pub mod Created
mod Examples
