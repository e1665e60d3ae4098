-- ===== src/Ingest/Simulator.antt =====
-- internal/ingest/simulator.go: the traffic that the simulator makes up.
pub mod Random
pub mod Pools
pub mod Traffic
pub mod Live
pub mod Yields
pub mod Kinds
pub mod Ends
pub mod History
pub mod Seeded
