-- ===== src/Analysis.antt =====
-- internal/analysis/analysis.go: kill chains, indicators and incidents.
pub mod Phase
pub mod Chain
pub mod Indicators
pub mod Incidents
