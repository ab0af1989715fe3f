-- ===== src/Tasks.antt =====
-- The periodic tasks and what a worker does on failures (backend/app/tasks).
pub mod Expiration
pub mod Recovery
pub mod Schedule
mod Samples
