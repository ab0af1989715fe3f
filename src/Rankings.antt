-- ===== src/Rankings.antt =====
-- The ranking of companies (backend/app/rankings).
pub mod GapPlan
pub mod Scoring
pub mod Staging
mod Samples
