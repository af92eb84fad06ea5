-- ===== src/Models/Playlists.antt =====
-- apps/playlists/models.py: playlists, their items, their published snapshots, and the grants that
-- share them. Channels are not in the database of this model.
use brandy_manager_back.Prelude.{
  ℕ, Option, List, Bool, true, false, ◌&&◌, ◌||◌, ltb, ◌==◌, first, sort_by, select,
}
use brandy_manager_back.Table.{Row}
use brandy_manager_back.Text.{Text}

pub data PlaylistType : Type 0 where
  manual rule_based : PlaylistType

pub data Visibility : Type 0 where
  global private shared : Visibility

pub data PlaylistStatus : Type 0 where
  draft published disabled archived : PlaylistStatus

pub record Playlist : Type 0 where
  pub id : ℕ
  pub owner_company : Option ℕ
  pub name : Text
  pub code : Text
  pub description : Text
  pub playlist_type : PlaylistType
  pub visibility : Visibility
  pub status : PlaylistStatus
  pub current_version : ℕ
  pub revision : ℕ
  pub published_at : Option ℕ
  pub created_by : Option ℕ
  pub archived_at : Option ℕ

pub record PlaylistItem : Type 0 where
  pub id : ℕ
  pub playlist : ℕ
  pub song : ℕ
  pub position : ℕ
  pub weight : ℕ
  pub active_from : Option ℕ
  pub active_until : Option ℕ
  pub added_by : Option ℕ

pub data SnapshotStatus : Type 0 where
  created published superseded : SnapshotStatus

pub record PlaylistSnapshot : Type 0 where
  pub id : ℕ
  pub playlist : ℕ
  pub version : ℕ
  pub checksum : ℕ
  pub status : SnapshotStatus
  pub published_by : Option ℕ
  pub published_at : Option ℕ
  pub created_at : ℕ

pub record PlaylistSnapshotItem : Type 0 where
  pub id : ℕ
  pub snapshot : ℕ
  pub song : ℕ
  pub position : ℕ
  pub weight : ℕ

pub record ContentAccessGrant : Type 0 where
  pub id : ℕ
  pub company : ℕ
  pub audio_content : Option ℕ
  pub playlist : Option ℕ
  pub revoked_at : Option ℕ

abbrev pub playlist_is_published : PlaylistStatus → Bool
playlist_is_published PlaylistStatus.published = true
playlist_is_published _ = false

abbrev pub playlist_is_archived : PlaylistStatus → Bool
playlist_is_archived PlaylistStatus.archived = true
playlist_is_archived _ = false

abbrev pub snapshot_is_published : SnapshotStatus → Bool
snapshot_is_published SnapshotStatus.published = true
snapshot_is_published _ = false

abbrev pub is_global : Visibility → Bool
is_global Visibility.global = true
is_global _ = false

abbrev pub is_private : Visibility → Bool
is_private Visibility.private = true
is_private _ = false

abbrev pub is_shared : Visibility → Bool
is_shared Visibility.shared = true
is_shared _ = false

instance abbrev pub playlist_row : Row Playlist
playlist_row = record { pk = λ p. p.id }

instance abbrev pub playlist_item_row : Row PlaylistItem
playlist_item_row = record { pk = λ i. i.id }

instance abbrev pub playlist_snapshot_row : Row PlaylistSnapshot
playlist_snapshot_row = record { pk = λ s. s.id }

instance abbrev pub playlist_snapshot_item_row : Row PlaylistSnapshotItem
playlist_snapshot_item_row = record { pk = λ i. i.id }

-- `.order_by("-version", "-created_at")`
abbrev pub newer_snapshot : PlaylistSnapshot → PlaylistSnapshot → Bool
newer_snapshot a b =
    ltb b.version a.version || a.version == b.version && ltb b.created_at a.created_at

-- The newest published snapshot of a playlist.
abbrev pub latest_published : List PlaylistSnapshot → ℕ → Option PlaylistSnapshot
latest_published snapshots playlist = first (
    sort_by newer_snapshot
      (select (λ s. s.playlist == playlist && snapshot_is_published s.status) snapshots))
