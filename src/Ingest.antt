-- ===== src/Ingest.antt =====
-- The ingest pipeline: internal/ingest.
pub mod Envelope
pub mod Issues
pub mod Sessions
pub mod Pipeline
pub mod RateLimit
pub mod Auth
pub mod Patterns
pub mod Grouping
pub mod Payloads
pub mod Tables
pub mod Aggregates
pub mod Feedback
pub mod Events
pub mod Processor
pub mod Decompress
pub mod AuthHeader
