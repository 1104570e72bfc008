-- ===== src/Store.antt =====
-- internal/store/store.go: the tables of the SQLite database, and their statements.
pub mod Payload
pub mod Table
pub mod Tables
pub mod Libraries
pub mod Files
pub mod Sidecars
pub mod Browse
pub mod Integrity
pub mod Jobs
