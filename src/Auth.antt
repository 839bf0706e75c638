-- ===== src/Auth.antt =====
-- Accounts and sessions (apps/api/src/auth).
pub mod Store
pub mod Limits
pub mod Accounts
pub mod Sessions
