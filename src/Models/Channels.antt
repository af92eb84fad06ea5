-- ===== src/Models/Channels.antt =====
-- apps/playlists/models.py (channels), apps/organizations/models.py (ZoneChannelAssignment),
-- apps/scheduling/models.py (ScheduleSnapshot), apps/playback/models.py (ZoneOperationalSnapshot) and
-- apps/catalog/models.py (AudioAsset): the rows that channels and the snapshots of zones stand on.
use brandy_manager_back.Prelude.{
  ℕ, ℤ, String, Option, List, Bool, true, false, ◌&&◌, ◌||◌, ltb, ◌==◌, first, sort_by, select,
  is_none,
}
use brandy_manager_back.Table.{Row}
use brandy_manager_back.Text.{Text}
use brandy_manager_back.Models.Playlists.{Visibility, SnapshotStatus, snapshot_is_published}
use brandy_manager_back.Models.Scheduling.{ScheduleBlock, ScheduleException, ScheduleAssignment}

pub data ChannelStatus : Type 0 where
  draft published disabled archived : ChannelStatus

pub record Channel : Type 0 where
  pub id : ℕ
  pub owner_company : Option ℕ
  pub name : Text
  pub code : Text
  pub description : Text
  pub visibility : Visibility
  pub status : ChannelStatus
  pub current_version : ℕ
  pub revision : ℕ
  pub created_by : Option ℕ
  pub published_at : Option ℕ
  pub archived_at : Option ℕ

pub record ChannelPlaylist : Type 0 where
  pub id : ℕ
  pub channel : ℕ
  pub playlist : ℕ
  pub weight : ℕ
  pub priority : ℤ
  pub active_from : Option ℕ
  pub active_until : Option ℕ
  pub created_at : ℕ

pub data OrderMode : Type 0 where
  sequential shuffle weighted : OrderMode

-- Loudness is in hundredths, as the column's two decimals; `settings` is JSON text.
pub record Policy : Type 0 where
  pub order_mode : OrderMode
  pub repeat_song_gap_count : ℕ
  pub max_same_genre_in_row : ℕ
  pub avoid_same_tag_in_row : Bool
  pub crossfade_ms : ℕ
  pub fade_in_ms : ℕ
  pub fade_out_ms : ℕ
  pub normalize_loudness : Bool
  pub target_lufs : Option ℤ
  pub settings : Text

pub record ChannelPolicy : Type 0 where
  pub id : ℕ
  pub channel : ℕ
  pub policy : Policy

pub record ChannelSnapshot : Type 0 where
  pub id : ℕ
  pub channel : ℕ
  pub version : ℕ
  pub checksum : ℕ
  pub status : SnapshotStatus
  pub policy_snapshot : Policy
  pub published_by : Option ℕ
  pub published_at : Option ℕ
  pub created_at : ℕ

pub record ChannelSnapshotPlaylist : Type 0 where
  pub id : ℕ
  pub snapshot : ℕ
  pub playlist : ℕ
  pub playlist_snapshot : ℕ
  pub weight : ℕ
  pub priority : ℤ
  pub active_from : Option ℕ
  pub active_until : Option ℕ

pub record ZoneChannelAssignment : Type 0 where
  pub id : ℕ
  pub company : ℕ
  pub zone : ℕ
  pub channel : ℕ
  pub assigned_by : Option ℕ
  pub assigned_at : ℕ
  pub unassigned_by : Option ℕ
  pub unassigned_at : Option ℕ
  pub reason : Text

-- An entry of `snapshot_data["blocks"]` and of `snapshot_data["exceptions"]`: the row, and the
-- snapshots of its content.
pub record BlockEntry : Type 0 where
  pub block : ScheduleBlock
  pub playlist_snapshot : Option ℕ
  pub channel_snapshot : Option ℕ

pub record ExceptionEntry : Type 0 where
  pub exception : ScheduleException
  pub playlist_snapshot : Option ℕ
  pub channel_snapshot : Option ℕ

pub record ScheduleContents : Type 0 where
  pub schedule : ℕ
  pub version : ℕ
  pub timezone : String
  pub valid_from : Option ℕ
  pub valid_until : Option ℕ
  pub blocks : List BlockEntry
  pub exceptions : List ExceptionEntry
  pub assignments : List ScheduleAssignment

pub record ScheduleSnapshot : Type 0 where
  pub id : ℕ
  pub schedule : ℕ
  pub version : ℕ
  pub checksum : ℕ
  pub status : SnapshotStatus
  pub snapshot_data : ScheduleContents
  pub published_by : Option ℕ
  pub published_at : Option ℕ
  pub created_at : ℕ

pub data ProcessingStatus : Type 0 where
  uploaded pending processing ready error archived : ProcessingStatus

pub record AudioAsset : Type 0 where
  pub id : ℕ
  pub audio_content : ℕ
  pub version : ℕ
  pub processing_status : ProcessingStatus
  pub is_primary : Bool

pub record IncludedSnapshot : Type 0 where
  pub playlist : ℕ
  pub playlist_snapshot : ℕ
  pub version : ℕ
  pub weight : ℕ
  pub priority : ℤ
  pub active_from : Option ℕ
  pub active_until : Option ℕ

pub record IncludedAsset : Type 0 where
  pub playlist_snapshot : ℕ
  pub item : ℕ
  pub song : ℕ
  pub audio_content : ℕ
  pub audio_asset : Option ℕ
  pub position : ℕ
  pub weight : ℕ

-- The dictionary that `_zone_operational_snapshot_payload` answers with. Its constant entries and the
-- name of the zone's time zone are left out.
pub record ZonePayload : Type 0 where
  pub generated_at : ℕ
  pub zone : ℕ
  pub site : ℕ
  pub company : ℕ
  pub assignment : Option ℕ
  pub assigned_at : Option ℕ
  pub channel : Option ℕ
  pub channel_snapshot : Option ℕ
  pub channel_version : Option ℕ
  pub schedule_snapshot : Option ℕ
  pub schedule_version : Option ℕ
  pub schedule_data : Option ScheduleContents
  pub playlist_snapshots : List IncludedSnapshot
  pub assets : List IncludedAsset

pub data OperationalStatus : Type 0 where
  ready superseded error : OperationalStatus

pub record ZoneOperationalSnapshot : Type 0 where
  pub id : ℕ
  pub company : ℕ
  pub zone : ℕ
  pub version : ℕ
  pub status : OperationalStatus
  pub channel : Option ℕ
  pub channel_snapshot : Option ℕ
  pub schedule_snapshot : Option ℕ
  pub checksum : ℕ
  pub generated_at : ℕ
  pub reason : Text
  pub snapshot_data : ZonePayload

abbrev pub channel_is_published : ChannelStatus → Bool
channel_is_published ChannelStatus.published = true
channel_is_published _ = false

abbrev pub channel_is_archived : ChannelStatus → Bool
channel_is_archived ChannelStatus.archived = true
channel_is_archived _ = false

abbrev pub asset_is_ready : ProcessingStatus → Bool
asset_is_ready ProcessingStatus.ready = true
asset_is_ready _ = false

abbrev pub operational_is_ready : OperationalStatus → Bool
operational_is_ready OperationalStatus.ready = true
operational_is_ready _ = false

instance abbrev pub channel_row : Row Channel
channel_row = record { pk = λ c. c.id }

instance abbrev pub channel_playlist_row : Row ChannelPlaylist
channel_playlist_row = record { pk = λ r. r.id }

instance abbrev pub channel_policy_row : Row ChannelPolicy
channel_policy_row = record { pk = λ p. p.id }

instance abbrev pub channel_snapshot_row : Row ChannelSnapshot
channel_snapshot_row = record { pk = λ s. s.id }

instance abbrev pub channel_snapshot_playlist_row : Row ChannelSnapshotPlaylist
channel_snapshot_playlist_row = record { pk = λ r. r.id }

instance abbrev pub channel_assignment_row : Row ZoneChannelAssignment
channel_assignment_row = record { pk = λ a. a.id }

instance abbrev pub operational_row : Row ZoneOperationalSnapshot
operational_row = record { pk = λ o. o.id }

-- `get_latest_published_channel_snapshot`
abbrev pub newer_channel_snapshot : ChannelSnapshot → ChannelSnapshot → Bool
newer_channel_snapshot a b =
    ltb b.version a.version || a.version == b.version && ltb b.created_at a.created_at

abbrev pub latest_channel_snapshot : List ChannelSnapshot → ℕ → Option ChannelSnapshot
latest_channel_snapshot snapshots channel = first (
    sort_by newer_channel_snapshot
      (select (λ s. s.channel == channel && snapshot_is_published s.status) snapshots))

-- `get_latest_published_schedule_snapshot`
abbrev pub newer_schedule_snapshot : ScheduleSnapshot → ScheduleSnapshot → Bool
newer_schedule_snapshot a b =
    ltb b.version a.version || a.version == b.version && ltb b.created_at a.created_at

abbrev pub latest_schedule_snapshot : List ScheduleSnapshot → ℕ → Option ScheduleSnapshot
latest_schedule_snapshot snapshots schedule = first (
    sort_by newer_schedule_snapshot
      (select (λ s. s.schedule == schedule && snapshot_is_published s.status) snapshots))

-- An assignment of the zone that is not closed, and `get_active_zone_channel_assignment`.
abbrev pub is_open_in : ℕ → ZoneChannelAssignment → Bool
is_open_in zone a = a.zone == zone && is_none a.unassigned_at

abbrev pub active_assignment : List ZoneChannelAssignment → ℕ → Option ZoneChannelAssignment
active_assignment assignments zone = first (select (is_open_in zone) assignments)
