-- ===== src/Alerts.antt =====
-- internal/alerts: the alert model (model.go), the store interface and the service (service.go).
pub mod Model
pub mod Store
pub mod Merge
pub mod Service
pub mod Related
pub mod Seed
pub mod Soundness
pub mod Lifecycle
pub mod Contents
pub mod Effects
pub mod History
