-- ===== src/Store.antt =====
-- The SQLite store under the repositories: its tables, the statements that several of them share,
-- and how a statement or a transaction of database/sql ends.
pub mod Tables
pub mod Session
pub mod Outcomes
pub mod Keeps
pub mod Statements
pub mod Valid
pub mod Triples
