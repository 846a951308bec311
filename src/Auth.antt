-- ===== src/Auth.antt =====
-- The accounts: internal/auth.
pub mod Tokens
pub mod Sessions
