-- ===== src/Db.antt =====
-- The database's own code: internal/db.
pub mod Migrate
pub mod Partitions
