-- ===== src/Ingestion.antt =====
-- The ingestion of one run (backend/app/ingestion/orchestrator.py).
pub mod Persistence
pub mod Salary
pub mod Deduplication
pub mod Providers
pub mod DirectAts
pub mod Services
pub mod Pipeline
pub mod Orchestrator
mod Samples
