-- ===== src/Access.antt =====
-- Who may do what (apps/authorization/services.py), and proofs.
pub mod Rows
pub mod Permissions
pub mod Require
pub mod Overrides
pub mod Isolation
pub mod Authorized
mod Tests
