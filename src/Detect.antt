-- ===== src/Detect.antt =====
-- internal/detect: the rules (rules.go), the SQL injection pattern, and the sliding-window engine
-- (engine.go).
pub mod Rule
pub mod Pattern
pub mod Signs
pub mod Scans
pub mod Rules
pub mod Engine
pub mod Windows
pub mod Batches
