-- ===== src/Store/Postgres.antt =====
-- internal/store/postgres.go: the store over a Postgres database.
pub mod Sql
pub mod Row
pub mod Query
pub mod Totals
pub mod Session
pub mod Documented
pub mod RoundTrip
pub mod Created
pub mod Refused
pub mod Clauses
pub mod Listing
pub mod Counting
pub mod Counted
