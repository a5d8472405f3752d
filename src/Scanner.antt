-- ===== src/Scanner.antt =====
-- internal/scanner/scanner.go: the inputs of a one-shot run and the scan of a library's directories.
pub mod Walking
pub mod Inputs
pub mod Found
pub mod Eligibility
