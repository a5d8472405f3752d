-- ===== src/Config.antt =====
-- internal/config/config.go: the configuration and how it is put together.
pub mod Numbers
pub mod Data
pub mod Loading
pub mod Usable
