-- ===== src/Mpmc.antt =====
-- Several producers and consumers at once on one ring: the reserve, copy and publish protocol of
-- `alf_mp_enqueue` and `alf_mc_dequeue` (kernel/include/linux/alf_queue.h) and of
-- `__ring_queue_mp_do_enqueue` and `__ring_queue_mc_do_dequeue` (kernel/include/linux/ring_queue.h).
pub mod Protocol
pub mod System
pub mod Positions
pub mod Invariant
pub mod Frame
pub mod Moves
pub mod Kept
pub mod Safety
pub mod Cover
pub mod Progress
pub mod Refine
pub mod Instances
pub mod Alone
pub mod Agrees
mod Examples
