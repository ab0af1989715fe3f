-- ===== src/CompanyIdentity.antt =====
-- The identity of companies (backend/app/company_identity).
pub mod Contracts
pub mod Resolver
mod Samples
