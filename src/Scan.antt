-- ===== src/Scan.antt =====
-- internal/scan: what library scans have found.
pub mod Repository
pub mod Enqueuer
pub mod Scheduler
