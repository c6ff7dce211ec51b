-- ===== src/Auth.antt =====
-- Signing in: backend/src/auth.rs.
pub mod Errors
pub mod Claims
pub mod Tokens
pub mod Sample
pub mod Table
pub mod Sessions
pub mod Refresh
pub mod Keys
pub mod Returns
pub mod Config
