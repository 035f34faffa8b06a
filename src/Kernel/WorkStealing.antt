-- ===== src/Kernel/WorkStealing.antt =====
-- The work-stealing scheduler, src/kernel/work_stealing: its deque and its injector queue.
pub mod Deque
