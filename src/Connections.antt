-- ===== src/Connections.antt =====
-- The connections of backend/src/connections.rs: typed settings plus secret fields in one of
-- three scopes. The decisions are pure functions there, and here.
pub mod Types
pub mod Validate
pub mod Access
pub mod Rotation
