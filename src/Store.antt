-- ===== src/Store.antt =====
-- internal/store: the alert stores, in memory (memory.go) and in Postgres (postgres.go).
pub mod Memory
pub mod Positions
pub mod Index
pub mod Queue
pub mod Tally
pub mod Postgres
