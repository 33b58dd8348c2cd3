-- ===== src/Analytics.antt =====
-- backend/src/analytics: what becomes of the events of the queries that have been answered.
pub mod Metrics
pub mod Producer
pub mod Consumer
pub mod Stats
pub mod Pipeline
pub mod Traffic
pub mod Clients
