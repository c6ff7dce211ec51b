-- ===== src/Pipelines.antt =====
-- The pipelines of backend/src/pipelines.rs: their schedules, dates and resources, and the
-- actions on them.
pub mod Civil
pub mod Cron
pub mod Resource
pub mod Answers
pub mod Actions
pub mod Logs
pub mod Forms
pub mod Provenance
