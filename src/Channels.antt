-- ===== src/Channels.antt =====
-- Channels (apps/playlists/services.py), their assignment to zones, and proofs.
pub mod Payload
pub mod Store
pub mod Codes
pub mod Rows
pub mod Lifecycle
pub mod Contents
pub mod Hashing
pub mod Publishing
pub mod Assigning
pub mod Requests
pub mod Quiet
pub mod Served
pub mod Stale
pub mod Everything
pub mod InUse
pub mod Playing
pub mod Published
pub mod Played
pub mod CodeLoop
pub mod Replaced
pub mod Assigned
mod Tests
