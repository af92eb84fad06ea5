-- ===== src/Channels/Store.antt =====
-- The tables that the channel services (apps/playlists/services.py) and the snapshots of zones
-- (apps/playback/services.py) read and write, and what they take from Django and Python.
use brandy_manager_back.Prelude.{ℕ, List, Bool}
pub use brandy_manager_back.Transaction.{
  Transaction, ◌>>=◌, ◌>>◌, return, raise, gets, or_raise, inspect, modify, raise_if,
}
use brandy_manager_back.Text.{Text}
use brandy_manager_back.Billing.{Plan, Subscription}
use brandy_manager_back.Store.{Db, Env}
use brandy_manager_back.Models.Catalog.{Song}
use brandy_manager_back.Models.Channels.{
  Channel, ChannelPlaylist, Policy, ChannelPolicy, ChannelSnapshot, ChannelSnapshotPlaylist,
  ZoneChannelAssignment, ScheduleContents, ScheduleSnapshot, AudioAsset, ZonePayload,
  ZoneOperationalSnapshot,
}
use brandy_manager_back.Channels.Payload.{ChannelPayload}

pub record ChannelDb : Type 0 where
  -- zones, sites, playlists with their snapshots, and schedules
  pub store : Db
  pub plans : List Plan
  pub subscriptions : List Subscription
  pub songs : List Song
  pub assets : List AudioAsset
  pub channels : List Channel
  pub relations : List ChannelPlaylist
  pub policies : List ChannelPolicy
  pub snapshots : List ChannelSnapshot
  pub snapshot_playlists : List ChannelSnapshotPlaylist
  pub assignments : List ZoneChannelAssignment
  pub schedule_snapshots : List ScheduleSnapshot
  pub operational : List ZoneOperationalSnapshot

pub record ChannelEnv : Type 0 where
  pub scheduling : Env
  pub slugify : Text → Text
  -- the database's order of names, in `order_by("playlist__name")`
  pub name_before : Text → Text → Bool
  -- `hashlib.sha256(json.dumps(payload, sort_keys=True, ...).encode("utf-8")).hexdigest()`
  pub channel_digest : ChannelPayload → ℕ
  pub schedule_digest : ScheduleContents → ℕ
  pub zone_digest : ZonePayload → ℕ
  -- the column checks of `ChannelPolicy.full_clean`
  pub policy_fields : Policy → Bool

abbrev pub C : Type 0 → Type 0
C A = Transaction ChannelDb A
