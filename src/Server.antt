-- ===== src/Server.antt =====
-- The HTTP API (internal/server/server.go).
pub mod Requests
pub mod Handlers
pub mod Live
pub mod Queueing
