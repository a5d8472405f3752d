-- ===== src/Worker.antt =====
-- internal/worker/worker.go: the consumer of the durable queue.
pub mod Engine
pub mod Steps
pub mod Settlement
pub mod Balance
pub mod Loop
pub mod Writing
