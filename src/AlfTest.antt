-- ===== src/AlfTest.antt =====
-- The test module of the array-based lock-free queue, kernel/lib/alf_queue_test.c.
pub mod Tests
pub mod Loops
pub mod Passes
mod Examples
