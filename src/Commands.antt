-- ===== src/Commands.antt =====
-- internal/commands/commands.go: the parts of the commands that decide something.
pub mod Settings
pub mod Assigning
pub mod Libraries
pub mod Maintenance
pub mod Confirmed
pub mod Texts
pub mod ServeKeys
