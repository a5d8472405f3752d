-- ===== src/Queue.antt =====
-- internal/queue: the FIFO of the command line run, and the durable queue over the store.
pub mod Memory
pub mod Fifo
pub mod Items
pub mod Enqueue
pub mod Work
pub mod Admin
pub mod Cancel
pub mod Invariant
pub mod Laws
