-- ===== src/Playlists/Store.antt =====
-- The tables that the playlist services (apps/playlists/services.py) read and write.
use brandy_manager_back.Prelude.{ℕ, List}
pub use brandy_manager_back.Transaction.{
  Transaction, ◌>>=◌, ◌>>◌, return, raise, gets, or_raise, inspect, modify, raise_if,
}
use brandy_manager_back.Text.{Text}
use brandy_manager_back.Billing.{Plan, Subscription}
use brandy_manager_back.Models.Playlists.{
  Playlist, PlaylistItem, PlaylistSnapshot, PlaylistSnapshotItem, ContentAccessGrant,
}
use brandy_manager_back.Models.Catalog.{AudioContent, Song}
use brandy_manager_back.Models.Scheduling.{ScheduleBlock}

pub record PlaylistDb : Type 0 where
  pub plans : List Plan
  pub subscriptions : List Subscription
  pub contents : List AudioContent
  pub songs : List Song
  pub grants : List ContentAccessGrant
  pub playlists : List Playlist
  pub items : List PlaylistItem
  pub snapshots : List PlaylistSnapshot
  pub snapshot_items : List PlaylistSnapshotItem
  pub blocks : List ScheduleBlock

-- Django's `slugify`, the text of a UUID, and the hash of the standard library.
pub record PlaylistEnv : Type 0 where
  pub slugify : Text → Text
  pub uuid : ℕ → Text
  pub sha256 : Text → ℕ

abbrev pub P : Type 0 → Type 0
P A = Transaction PlaylistDb A
