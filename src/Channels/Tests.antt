-- ===== src/Channels/Tests.antt =====
-- The channel services (apps/playlists/services.py) on a small database.
mod Sample
mod Zones
mod Contents
