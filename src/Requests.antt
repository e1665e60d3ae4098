-- ===== src/Requests.antt =====
-- internal/requests/requests.go: the ring of recent events and the hub of live subscribers.
pub mod Ring
pub mod Hub
