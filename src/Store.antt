-- ===== src/Store.antt =====
-- The tables that scheduling (apps/scheduling) reads and writes, and what it takes from Django.
use brandy_manager_back.Prelude.{ℕ, String, List, Bool}
pub use brandy_manager_back.Transaction.{
  Transaction, ◌>>=◌, ◌>>◌, return, raise, gets, or_raise, inspect, modify, raise_if, full_clean,
  assert_new,
}
use brandy_manager_back.Models.Organizations.{Site, Zone, ResourceScope}
use brandy_manager_back.Models.Playlists.{
  Playlist, PlaylistItem, PlaylistSnapshot, PlaylistSnapshotItem, ContentAccessGrant,
}
use brandy_manager_back.Models.Scheduling.{
  Schedule, ScheduleBlock, ScheduleException, ScheduleAssignment,
}

pub record Db : Type 0 where
  pub sites : List Site
  pub zones : List Zone
  pub scopes : List ResourceScope
  pub playlists : List Playlist
  pub playlist_items : List PlaylistItem
  pub playlist_snapshots : List PlaylistSnapshot
  pub playlist_snapshot_items : List PlaylistSnapshotItem
  pub grants : List ContentAccessGrant
  pub schedules : List Schedule
  pub blocks : List ScheduleBlock
  pub exceptions : List ScheduleException
  pub assignments : List ScheduleAssignment

-- What the services use of Django and of the time zone database. The first fields are the column
-- checks of `Model.clean_fields` (lengths, choices, integer ranges, existence of foreign keys).
pub record Env : Type 0 where
  pub schedule_fields : Schedule → Bool
  pub block_fields : ScheduleBlock → Bool
  pub exception_fields : ScheduleException → Bool
  pub assignment_fields : ScheduleAssignment → Bool
  pub scope_fields : ResourceScope → Bool
  pub playlist_fields : Playlist → Bool
  pub item_fields : PlaylistItem → Bool
  -- `zoneinfo.ZoneInfo(name)` finds the zone; an instant's date and time of day there
  pub is_timezone : String → Bool
  pub local_date : String → ℕ → ℕ
  pub local_time : String → ℕ → ℕ

abbrev pub M : Type 0 → Type 0
M A = Transaction Db A
