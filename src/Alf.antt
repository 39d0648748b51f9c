-- ===== src/Alf.antt =====
-- The array-based lock-free queue: kernel/include/linux/alf_queue.h,
-- kernel/include/linux/alf_queue_helpers.h and kernel/lib/alf_queue.c.
pub mod Queue
pub mod Shapes
pub mod Helpers
pub mod Variants
pub mod Wrapping
pub mod Unrolled
pub mod Stores
pub mod Ops
pub mod Valid
pub mod RefineEnqueue
pub mod RefineDequeue
pub mod Simple
pub mod Solo
pub mod Alloc
mod Examples
