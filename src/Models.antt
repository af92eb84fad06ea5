-- ===== src/Models.antt =====
-- The rows of the database, app by app.
pub mod Organizations
pub mod Playlists
pub mod Catalog
pub mod Scheduling
pub mod Channels
