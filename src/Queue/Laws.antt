-- ===== src/Queue/Laws.antt =====
-- What a call of DBQueue (internal/queue/queue.go) that succeeds has done, and what one that fails
-- has left.
pub mod Claiming
pub mod Completing
pub mod Failing
pub mod Retrying
pub mod Enqueueing
pub mod Settled
pub mod Present
