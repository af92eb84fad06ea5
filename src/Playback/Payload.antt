-- ===== src/Playback/Payload.antt =====
-- apps/playback/services.py, `_zone_operational_snapshot_payload`: what a zone plays from. A foreign key
-- finds its row in this database.
use mathlib.Core.Option
use brandy_manager_back.Prelude.{
  ℕ, ℤ, pos, Option, none, some, List, [], ◌∷◌, ◌++◌, Bool, ◌&&◌, ◌||◌, ltb, ◌==◌, if◌then◌else◌,
  exists, first, select, same_key, sort_by,
}
use brandy_manager_back.Table.{get}
use brandy_manager_back.Models.Organizations.{Zone}
use brandy_manager_back.Models.Playlists.{
  PlaylistSnapshot, PlaylistSnapshotItem, playlist_snapshot_row,
}
use brandy_manager_back.Models.Catalog.{Song, song_row}
use brandy_manager_back.Models.Channels.{
  ChannelSnapshot, ChannelSnapshotPlaylist, ZoneChannelAssignment, BlockEntry, ExceptionEntry,
  ScheduleContents, ScheduleSnapshot, AudioAsset, asset_is_ready, IncludedSnapshot, IncludedAsset,
  ZonePayload,
}
use brandy_manager_back.Channels.Store.{ChannelDb}

-- `order_by("-version", "id")`
abbrev pub newer_asset : AudioAsset → AudioAsset → Bool
newer_asset a b = ltb b.version a.version || a.version == b.version && ltb a.id b.id

abbrev pub is_playable_for : ℕ → AudioAsset → Bool
is_playable_for content a =
    a.audio_content == content && (asset_is_ready a.processing_status && a.is_primary)

unfoldable pub ready_asset : ChannelDb → ℕ → Option AudioAsset
unfolding sort_by
ready_asset db content = first (sort_by newer_asset (select (is_playable_for content) db.assets))

abbrev pub included_asset :
    ChannelDb → PlaylistSnapshot → PlaylistSnapshotItem → Song → IncludedAsset
included_asset db s i song = record {
  playlist_snapshot = s.id;
  item = i.id;
  song = i.song;
  audio_content = song.audio_content;
  audio_asset = Option.map (λ a. a.id) (ready_asset db song.audio_content);
  position = i.position;
  weight = i.weight;
}

unfoldable pub item_assets :
    ChannelDb → PlaylistSnapshot → List PlaylistSnapshotItem → List IncludedAsset
unfolding ready_asset
item_assets db s [] = []
item_assets db s (i ∷ is) = elim (get i.song db.songs) [
  | none ↦ item_assets db s is
  | some song ↦ included_asset db s i song ∷ item_assets db s is
]

-- The two lists that `include_playlist_snapshot` appends to. The set of the keys that are in is that of
-- the first list.
pub record Included : Type 0 where
  pub snapshots : List IncludedSnapshot
  pub assets : List IncludedAsset

abbrev pub is_included : ℕ → List IncludedSnapshot → Bool
is_included k snapshots = exists (λ e. e.playlist_snapshot == k) snapshots

unfoldable pub include_playlist_snapshot :
    ChannelDb → ℕ → ℤ → Option ℕ → Option ℕ → PlaylistSnapshot → Included → Included
unfolding item_assets
include_playlist_snapshot db weight priority active_from active_until s acc =
    if is_included s.id acc.snapshots then acc else record {
      snapshots =
          acc.snapshots
          ++ record {
            playlist = s.playlist;
            playlist_snapshot = s.id;
            version = s.version;
            weight = weight;
            priority = priority;
            active_from = active_from;
            active_until = active_until;
          }
            ∷ [];
      assets =
          acc.assets
          ++ item_assets db s (select (λ i. i.snapshot == s.id) db.store.playlist_snapshot_items);
    }

-- `if not snapshot ...: return`
unfoldable pub include_relation : ChannelDb → ChannelSnapshotPlaylist → Included → Included
unfolding include_playlist_snapshot
include_relation db r acc = elim (get r.playlist_snapshot db.store.playlist_snapshots) [
  | none ↦ acc
  | some s ↦ include_playlist_snapshot db r.weight r.priority r.active_from r.active_until s acc
]

unfoldable pub include_relations : ChannelDb → List ChannelSnapshotPlaylist → Included → Included
unfolding include_relation
include_relations db [] acc = acc
include_relations db (r ∷ rs) acc = include_relations db rs (include_relation db r acc)

-- The loop over the snapshots that the schedule refers to, with the default weight and priority.
unfoldable pub include_snapshots : ChannelDb → List PlaylistSnapshot → Included → Included
unfolding include_playlist_snapshot
include_snapshots db [] acc = acc
include_snapshots db (s ∷ ss) acc =
    include_snapshots db ss (include_playlist_snapshot db 1 (pos 0) none none s acc)

-- `id__in=referenced_ids`, where the two collections of the schedule's data name the key
abbrev pub is_referenced : ScheduleContents → PlaylistSnapshot → Bool
is_referenced d s =
    exists (λ (b : BlockEntry). same_key b.playlist_snapshot (some s.id)) d.blocks
    || exists (λ (e : ExceptionEntry). same_key e.playlist_snapshot (some s.id)) d.exceptions

abbrev pub channel_relations : ChannelDb → Option ChannelSnapshot → List ChannelSnapshotPlaylist
channel_relations db none = []
channel_relations db (some c) = select (λ r. r.snapshot == c.id) db.snapshot_playlists

abbrev pub referenced_snapshots : ChannelDb → Option ScheduleSnapshot → List PlaylistSnapshot
referenced_snapshots db none = []
referenced_snapshots db (some s) =
    select (is_referenced s.snapshot_data) db.store.playlist_snapshots

unfoldable pub included : ChannelDb → Option ChannelSnapshot → Option ScheduleSnapshot → Included
unfolding include_relations include_snapshots
included db channel_snapshot schedule_snapshot =
    include_snapshots db (referenced_snapshots db schedule_snapshot) (
      include_relations db (channel_relations db channel_snapshot)
        (record { snapshots = []; assets = [] }))

unfoldable pub zone_operational_snapshot_payload :
    ChannelDb
    → Zone
    → Option ZoneChannelAssignment
    → Option ChannelSnapshot
    → Option ScheduleSnapshot
    → ℕ
    → ZonePayload
unfolding included
zone_operational_snapshot_payload db zone a c s generated_at = record {
  generated_at = generated_at;
  zone = zone.id;
  site = zone.site;
  company = zone.company;
  assignment = Option.map (λ x. x.id) a;
  assigned_at = Option.map (λ x. x.assigned_at) a;
  channel = Option.map (λ x. x.channel) a;
  channel_snapshot = Option.map (λ x. x.id) c;
  channel_version = Option.map (λ x. x.version) c;
  schedule_snapshot = Option.map (λ x. x.id) s;
  schedule_version = Option.map (λ x. x.version) s;
  schedule_data = Option.map (λ x. x.snapshot_data) s;
  playlist_snapshots = (included db c s).snapshots;
  assets = (included db c s).assets;
}
