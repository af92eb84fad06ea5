-- ===== src/Invitations.antt =====
-- Invitations of members into a company (apps/organizations/services.py), and proofs.
pub mod Rows
pub mod Scopes
pub mod Services
pub mod Accept
pub mod Open
pub mod OneOpen
pub mod SingleUse
mod Tests
