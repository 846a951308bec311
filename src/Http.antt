-- ===== src/Http.antt =====
-- The HTTP handlers: internal/httpapi.
pub mod Ingest
pub mod Access
pub mod Rules
