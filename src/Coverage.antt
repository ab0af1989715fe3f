-- ===== src/Coverage.antt =====
-- Job-list coverage snapshots (backend/app/ingestion/coverage) and the expiry of job sources.
pub mod Models
pub mod Contracts
pub mod Activity
pub mod Service
mod Samples
