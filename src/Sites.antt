-- ===== src/Sites.antt =====
-- The sites of a company and their zones (apps/organizations/services.py), and proofs.
pub mod Codes
pub mod Services
pub mod Closed
pub mod Everything
pub mod Limits
mod Tests
