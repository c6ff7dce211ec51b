-- ===== src/QueryLog.antt =====
-- The query log: backend/src/query_log.rs, query_log_api.rs, query_log_event.rs and
-- query_log_store.rs.
pub mod Records
pub mod Store
pub mod Access
pub mod Pages
