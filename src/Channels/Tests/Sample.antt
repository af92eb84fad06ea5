-- ===== src/Channels/Tests/Sample.antt =====
-- A company with one zone, and a published channel of one published playlist.
use brandy_manager_back.Prelude.{pos, none, some, [], ◌∷◌, true, false}
use brandy_manager_back.Result.{Result, ok, err}
use brandy_manager_back.Store.{Db, Env}
use brandy_manager_back.Models.Organizations.{Site, SiteStatus, Zone, ZoneStatus}
use brandy_manager_back.Models.Playlists.{
  Playlist, PlaylistSnapshot, PlaylistStatus, PlaylistType, SnapshotStatus, Visibility,
}
use brandy_manager_back.Models.Channels.{
  Channel, ChannelPlaylist, ChannelSnapshot, ChannelSnapshotPlaylist, ChannelStatus,
}
use brandy_manager_back.Channels.Rows.{default_policy}
use brandy_manager_back.Channels.Store.{ChannelDb, ChannelEnv}

abbrev scheduling_env : Env
scheduling_env = record {
  schedule_fields = λ s. true;
  block_fields = λ b. true;
  exception_fields = λ e. true;
  assignment_fields = λ a. true;
  scope_fields = λ s. true;
  playlist_fields = λ p. true;
  item_fields = λ i. true;
  is_timezone = λ name. true;
  local_date = λ name at. 1;
  local_time = λ name at. at;
}

abbrev pub env : ChannelEnv
env = record {
  scheduling = scheduling_env;
  slugify = λ text. text;
  name_before = λ a b. false;
  channel_digest = λ p. p.channel;
  schedule_digest = λ d. d.version;
  zone_digest = λ p. p.zone;
  policy_fields = λ p. true;
}

abbrev pub site : Site
site = record {
  id = 7;
  company = 1;
  name = 83 ∷ [];
  code = 83 ∷ [];
  status = SiteStatus.active;
  archived_at = none;
}

abbrev pub zone : Zone
zone = record {
  id = 8;
  company = 1;
  site = 7;
  name = 90 ∷ [];
  code = 90 ∷ [];
  status = ZoneStatus.active;
  archived_at = none;
}

abbrev pub playlist : Playlist
playlist = record {
  id = 1;
  owner_company = some 1;
  name = 65 ∷ [];
  code = 65 ∷ [];
  description = [];
  playlist_type = PlaylistType.manual;
  visibility = Visibility.private;
  status = PlaylistStatus.published;
  current_version = 1;
  revision = 2;
  published_at = some 5;
  created_by = none;
  archived_at = none;
}

abbrev pub playlist_snapshot : PlaylistSnapshot
playlist_snapshot = record {
  id = 3;
  playlist = 1;
  version = 1;
  checksum = 9;
  status = SnapshotStatus.published;
  published_by = none;
  published_at = some 5;
  created_at = 5;
}

abbrev pub channel : Channel
channel = record {
  id = 2;
  owner_company = some 1;
  name = 67 ∷ [];
  code = 67 ∷ [];
  description = [];
  visibility = Visibility.private;
  status = ChannelStatus.published;
  current_version = 1;
  revision = 4;
  created_by = none;
  published_at = some 6;
  archived_at = none;
}

abbrev pub relation : ChannelPlaylist
relation = record {
  id = 11;
  channel = 2;
  playlist = 1;
  weight = 1;
  priority = pos 0;
  active_from = none;
  active_until = none;
  created_at = 6;
}

abbrev pub channel_snapshot : ChannelSnapshot
channel_snapshot = record {
  id = 12;
  channel = 2;
  version = 1;
  checksum = 1;
  status = SnapshotStatus.published;
  policy_snapshot = default_policy;
  published_by = none;
  published_at = some 6;
  created_at = 6;
}

abbrev pub published_relation : ChannelSnapshotPlaylist
published_relation = record {
  id = 13;
  snapshot = 12;
  playlist = 1;
  playlist_snapshot = 3;
  weight = 1;
  priority = pos 0;
  active_from = none;
  active_until = none;
}

abbrev pub store : Db
store = record {
  sites = site ∷ [];
  zones = zone ∷ [];
  scopes = [];
  playlists = playlist ∷ [];
  playlist_items = [];
  playlist_snapshots = playlist_snapshot ∷ [];
  playlist_snapshot_items = [];
  grants = [];
  schedules = [];
  blocks = [];
  exceptions = [];
  assignments = [];
}

abbrev pub db : ChannelDb
db = record {
  store = store;
  plans = [];
  subscriptions = [];
  songs = [];
  assets = [];
  channels = channel ∷ [];
  relations = relation ∷ [];
  policies = record { id = 14; channel = 2; policy = default_policy } ∷ [];
  snapshots = channel_snapshot ∷ [];
  snapshot_playlists = published_relation ∷ [];
  assignments = [];
  schedule_snapshots = [];
  operational = [];
}

-- What an accepted request stores; a refused one leaves the sample.
abbrev pub stored : Result (Unit {0} × ChannelDb) → ChannelDb
stored (ok p) = p.1
stored (err e) = db
