-- ===== src/Worker.antt =====
-- The background worker: internal/worker.
pub mod Jobs
pub mod Rollup
pub mod Alerts
