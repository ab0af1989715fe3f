-- ===== src/Manifest.antt =====
-- The company manifest (backend/app/manifest).
pub mod Allocation
pub mod Members
pub mod Categories
pub mod EvidencePolicy
mod Samples
