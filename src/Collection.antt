-- ===== src/Collection.antt =====
-- On-demand collection of one company (backend/app/collection).
pub mod Models
pub mod Session
pub mod Repository
pub mod Service
mod Samples
