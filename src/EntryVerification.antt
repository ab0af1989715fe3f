-- ===== src/EntryVerification.antt =====
-- The verification of recruiting entries (backend/app/ingestion/entry_verification).
pub mod Contracts
pub mod Service
mod Samples
