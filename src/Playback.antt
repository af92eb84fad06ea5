-- ===== src/Playback.antt =====
-- What a zone plays from (apps/playback/services.py), and proofs.
pub mod Payload
pub mod Snapshots
pub mod Served
pub mod Growth
pub mod Contents
pub mod Versions
