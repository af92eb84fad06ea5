-- ===== src/Playlists/Tests.antt =====
-- Runs of the playlist services, and instances of the theorems about them.
mod Sample
mod Items
mod Whole
