-- ===== src/Server.antt =====
-- internal/server: how the pipeline and the handlers put the parts together.
pub mod Pipeline
pub mod Control
pub mod Incidents
pub mod Deployment
pub mod Inquiries
pub mod Rate
pub mod Intake
pub mod Desk
pub mod Build
pub mod Reading
pub mod Tailed
