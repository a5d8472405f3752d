-- ===== src/Strings.antt =====
-- The functions of Go's strings and path/filepath that the program calls, on texts of characters,
-- with the separator of Unix.
pub mod Splitting
pub mod Paths
pub mod Suffixes
