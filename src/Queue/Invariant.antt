-- ===== src/Queue/Invariant.antt =====
-- The invariant of the work_queue table, for the operations of DBQueue (internal/queue/queue.go).
pub mod Enqueue
pub mod Work
pub mod Cancel
pub mod Calls
