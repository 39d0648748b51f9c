-- ===== src/RingQueue.antt =====
-- The ring queue, after the bufring of FreeBSD and the rte_ring of DPDK:
-- kernel/include/linux/ring_queue.h and kernel/lib/ring_queue.c.
pub mod State
pub mod Ptrs
pub mod Ops
pub mod Api
pub mod Valid
pub mod Spec
pub mod Entered
pub mod Enqueue
pub mod Dequeue
pub mod Solo
pub mod Create
pub mod Waits
pub mod Calls
mod Examples
