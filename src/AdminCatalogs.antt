-- ===== src/AdminCatalogs.antt =====
-- The administration of catalogs: backend/src/admin_catalogs.rs.
pub mod Types
pub mod Pairs
pub mod Validate
pub mod Rows
pub mod Demo
pub mod Update
