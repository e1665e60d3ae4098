-- ===== src/Tests.antt =====
-- Concrete inputs to the theorems, by component.
mod Fixtures
pub mod Detect
pub mod Alerts
pub mod Store
pub mod Edge
pub mod Containment
pub mod Requests
pub mod Server
pub mod Analysis
pub mod Ingest
pub mod Postgres
pub mod Simulator
pub mod Incidents
pub mod Reading
