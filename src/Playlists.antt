-- ===== src/Playlists.antt =====
-- The playlist services (apps/playlists/services.py), what they read of the catalog, and proofs.
pub mod Catalog
pub mod Codes
pub mod Store
pub mod Items
pub mod Lifecycle
pub mod Publishing
pub mod Constraints
pub mod Numbering
pub mod Renumbering
pub mod Creating
pub mod Numbered
pub mod Reordering
pub mod Removing
pub mod Requests
pub mod Steps
pub mod Copies
pub mod Decimal
pub mod CodeLoop
pub mod Order
pub mod Published
pub mod Republishing
pub mod Limits
pub mod Everything
mod Tests
