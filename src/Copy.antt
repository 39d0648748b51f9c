-- ===== src/Copy.antt =====
-- Moving elements between a ring array and a caller's table: the loops of
-- kernel/include/linux/alf_queue_helpers.h and of ENQUEUE_PTRS and DEQUEUE_PTRS in
-- kernel/include/linux/ring_queue.h share their shapes, which stand here once.
pub mod Loops
pub mod Around
pub mod Runs
pub mod Slots
pub mod Window
