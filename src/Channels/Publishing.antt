-- ===== src/Channels/Publishing.antt =====
-- Publishing a channel (apps/playlists/services.py): a numbered snapshot of its playlists' snapshots, and
-- new snapshots of the zones that play it.
use brandy_manager_back.Prelude.{
  ℕ, suc, ◌+◌, Option, none, some, List, [], ◌∷◌, Bool, false, not, ◌&&◌, ◌||◌, ◌==◌, is_some,
  if◌then◌else◌, exists, select,
}
use brandy_manager_back.Table.{get, insert}
use brandy_manager_back.Text.{Text}
use brandy_manager_back.Result.{
  Result, ok, err, integrity_error, channel_not_publishable, channel_revision_conflict,
}
use brandy_manager_back.Models.Playlists.{
  PlaylistSnapshot, SnapshotStatus, playlist_is_archived, playlist_row,
}
use brandy_manager_back.Models.Channels.{
  Channel, ChannelPlaylist, ChannelStatus, Policy, ChannelSnapshot, ChannelSnapshotPlaylist,
  ZoneChannelAssignment, channel_is_published, channel_is_archived, channel_snapshot_row,
  channel_snapshot_playlist_row, latest_channel_snapshot,
}
use brandy_manager_back.Scheduling.Selectors.{get_latest_published_snapshot}
use brandy_manager_back.Channels.Store.{
  ChannelDb, ChannelEnv, C, ◌>>=◌, ◌>>◌, return, raise, gets, inspect, modify, raise_if,
}
use brandy_manager_back.Channels.Rows.{
  load_channel, bump_channel_revision, assert_playlist_channel_available, of_channel,
  get_or_create_policy,
}
use brandy_manager_back.Channels.Lifecycle.{is_open_on}
use brandy_manager_back.Playback.Snapshots.{create_zone_operational_snapshot}
use brandy_manager_back.Channels.Hashing.{ordered_relations, channel_snapshot_payload}

-- The loop of `assert_channel_publishable`.
unfoldable pub assert_relations_publishable :
    ℕ → List ChannelPlaylist → ChannelDb → Result (Unit {0})
unfolding assert_playlist_channel_available
assert_relations_publishable company [] db = ok tt
assert_relations_publishable company (r ∷ rs) db =
    let rest = assert_relations_publishable company rs db in
    elim (assert_playlist_channel_available company r.playlist db) [
      | err e ↦ err e
      | ok p ↦ if playlist_is_archived p.status then err channel_not_publishable else rest
    ]

unfoldable pub assert_channel_publishable : ℕ → Channel → C (Unit {0})
unfolding assert_relations_publishable
assert_channel_publishable company c =
    gets (λ db. select (of_channel c.id) db.relations) >>= λ rows.
    raise_if (not (exists (of_channel c.id) rows)) channel_not_publishable
    >> inspect (assert_relations_publishable company rows)

unfoldable pub insert_channel_snapshot : ChannelSnapshot → C (Unit {0})
insert_channel_snapshot s =
    gets (λ db.
      is_some (get s.id db.snapshots)
      || exists (λ t. t.channel == s.channel && t.version == s.version) db.snapshots)
    >>= λ broken.
        raise_if broken integrity_error
        >> modify (λ db. record db { snapshots = insert s db.snapshots })

-- `ChannelSnapshotPlaylist.objects.create(...)`: the column `playlist_snapshot` is not null.
abbrev pub snapshot_playlist :
    ℕ → ℕ → ChannelPlaylist → Option PlaylistSnapshot → Option ChannelSnapshotPlaylist
snapshot_playlist new_id snapshot r none = none
snapshot_playlist new_id snapshot r (some s) = some (record {
  id = new_id;
  snapshot = snapshot;
  playlist = r.playlist;
  playlist_snapshot = s.id;
  weight = r.weight;
  priority = r.priority;
  active_from = r.active_from;
  active_until = r.active_until;
})

abbrev pub insert_snapshot_playlist :
    Option ChannelSnapshotPlaylist
    → List ChannelSnapshotPlaylist
    → Result (List ChannelSnapshotPlaylist)
insert_snapshot_playlist none rows = err integrity_error
insert_snapshot_playlist (some r) rows =
    if is_some (get r.id rows)
      || exists (λ q. q.snapshot == r.snapshot && q.playlist == r.playlist) rows
    then err integrity_error
    else ok (insert r rows)

unfoldable pub create_snapshot_playlists :
    ChannelDb
    → ℕ
    → (ℕ → ℕ)
    → ℕ
    → List ChannelPlaylist
    → List ChannelSnapshotPlaylist
    → Result (List ChannelSnapshotPlaylist)
unfolding get_latest_published_snapshot
create_snapshot_playlists db snapshot fresh n [] rows = ok rows
create_snapshot_playlists db snapshot fresh n (r ∷ rs) rows =
    elim (insert_snapshot_playlist
      (snapshot_playlist (fresh n) snapshot r (get_latest_published_snapshot db.store r.playlist))
      rows) [
        | err e ↦ err e
        | ok rows' ↦ create_snapshot_playlists db snapshot fresh (suc n) rs rows'
      ]

unfoldable pub snapshot_relations : ChannelEnv → ℕ → ℕ → (ℕ → ℕ) → C (Unit {0})
unfolding ordered_relations create_snapshot_playlists
snapshot_relations env channel snapshot fresh db =
    elim (create_snapshot_playlists db snapshot fresh 0 (ordered_relations env db channel)
      db.snapshot_playlists) [
        | err e ↦ err e
        | ok rows ↦ ok (tt, record db { snapshot_playlists = rows })
      ]

-- `"CHANNEL_PUBLISHED"`
abbrev pub channel_published : Text
channel_published =
    67 ∷ 72 ∷ 65 ∷ 78 ∷ 78 ∷ 69 ∷ 76 ∷ 95 ∷ 80 ∷ 85 ∷ 66 ∷ 76 ∷ 73 ∷ 83 ∷ 72 ∷ 69 ∷ 68 ∷ []

-- The loop over the open assignments of the channel: `fresh n` is the key of its n-th snapshot.
unfoldable pub refresh_zones :
    ChannelEnv → Text → (ℕ → ℕ) → ℕ → ℕ → List ZoneChannelAssignment → C (Unit {0})
unfolding create_zone_operational_snapshot
refresh_zones env reason fresh n now [] = return tt
refresh_zones env reason fresh n now (a ∷ as') =
    create_zone_operational_snapshot env a.zone reason (fresh n) now
    >> refresh_zones env reason fresh (suc n) now as'

abbrev pub published_snapshot : Channel → ℕ → Policy → Option ℕ → ℕ → ℕ → ChannelSnapshot
published_snapshot c checksum policy actor new_id now = record {
  id = new_id;
  channel = c.id;
  version = c.current_version + 1;
  checksum = checksum;
  status = SnapshotStatus.published;
  policy_snapshot = policy;
  published_by = actor;
  published_at = some now;
  created_at = now;
}

unfoldable pub publish_new_version :
    ChannelEnv → Channel → ℕ → Policy → Option ℕ → ℕ → (ℕ → ℕ) → (ℕ → ℕ) → ℕ → C ChannelSnapshot
unfolding insert_channel_snapshot snapshot_relations bump_channel_revision refresh_zones
publish_new_version env c checksum policy actor new_id fresh zone_fresh now =
    insert_channel_snapshot (published_snapshot c checksum policy actor new_id now)
    >> snapshot_relations env c.id new_id fresh
    >> bump_channel_revision (record c {
      current_version = c.current_version + 1;
      status = ChannelStatus.published;
      published_at = some now;
    })
    >> gets (λ db. select (is_open_on c.id) db.assignments)
    >>= λ open_rows.
        refresh_zones env channel_published zone_fresh 0 now open_rows
        >> return (published_snapshot c checksum policy actor new_id now)

-- Nothing changed since the snapshot: the channel goes back to it.
unfoldable pub republish_channel : Channel → ChannelSnapshot → C ChannelSnapshot
unfolding bump_channel_revision
republish_channel c latest =
    if channel_is_published c.status
    then return latest
    else bump_channel_revision
        (record c { status = ChannelStatus.published; published_at = latest.published_at })
      >> return latest

-- `expected_revision is not None and channel.revision != expected_revision`
abbrev pub is_stale_channel : Channel → Option ℕ → Bool
is_stale_channel c none = false
is_stale_channel c (some expected) = not (c.revision == expected)

-- `latest and latest.checksum == checksum`
abbrev pub unchanged_since : ℕ → Option ChannelSnapshot → Option ChannelSnapshot
unchanged_since checksum none = none
unchanged_since checksum (some latest) = if latest.checksum == checksum then some latest else none

abbrev pub publish_checked :
    Channel → Option ℕ → Option ChannelSnapshot → C ChannelSnapshot → C ChannelSnapshot
publish_checked c expected (some latest) publish =
    if is_stale_channel c expected then return latest else republish_channel c latest
publish_checked c expected none publish =
    if is_stale_channel c expected then raise channel_revision_conflict else publish

unfoldable pub publish_channel :
    ChannelEnv → ℕ → ℕ → Option ℕ → Option ℕ → ℕ → ℕ → (ℕ → ℕ) → (ℕ → ℕ) → ℕ → C ChannelSnapshot
unfolding load_channel
publish_channel env k company actor expected policy_id new_id fresh zone_fresh now =
    load_channel k >>= λ c.
    raise_if (channel_is_archived c.status) channel_not_publishable
    >> assert_channel_publishable company c
    >> get_or_create_policy c.id policy_id
    >>= λ p.
        gets (λ db. env.channel_digest (channel_snapshot_payload env db c p.policy)) >>= λ checksum.
        gets (λ db. latest_channel_snapshot db.snapshots c.id) >>= λ latest.
        publish_checked c expected (unchanged_since checksum latest)
          (publish_new_version env c checksum p.policy actor new_id fresh zone_fresh now)
