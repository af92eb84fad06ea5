-- ===== src/Playlists/Publishing.antt =====
-- Publishing a playlist (apps/playlists/services.py): a numbered snapshot of its items.
use brandy_manager_back.Prelude.{
  ℕ, suc, ◌+◌, Option, none, some, List, [], ◌∷◌, ◌++◌, Bool, false, not, ◌&&◌, ◌||◌, ◌==◌, is_none,
  is_some, if◌then◌else◌, exists,
}
use brandy_manager_back.Text.{Text, decimal}
use brandy_manager_back.Result.{
  Result, ok, err, integrity_error, playlist_not_publishable, playlist_revision_conflict,
}
use brandy_manager_back.Table.{get, insert}
use brandy_manager_back.Models.Playlists.{
  Playlist, PlaylistItem, PlaylistSnapshot, PlaylistSnapshotItem, PlaylistStatus, SnapshotStatus,
  playlist_is_published, latest_published, playlist_snapshot_row, playlist_snapshot_item_row,
}
use brandy_manager_back.Playlists.Store.{
  PlaylistDb, PlaylistEnv, P, ◌>>=◌, ◌>>◌, return, raise, gets, modify, raise_if,
}
use brandy_manager_back.Playlists.Catalog.{get_accessible_song_by_id}
use brandy_manager_back.Playlists.Items.{load_playlist, bump_revision, ordered_items, of_playlist}

-- One item of the text that is hashed: song, position and weight with colons between.
unfoldable pub checksum_entry : PlaylistEnv → PlaylistItem → Text
unfolding decimal
checksum_entry env i = env.uuid i.song ++ 58 ∷ (decimal i.position ++ 58 ∷ decimal i.weight)

-- `"|".join(...)`
unfoldable pub join_entries : List Text → Text
join_entries [] = []
join_entries (e ∷ []) = e
join_entries (e ∷ f ∷ es) = e ++ 124 ∷ join_entries (f ∷ es)

unfoldable pub checksum_entries : PlaylistEnv → List PlaylistItem → List Text
unfolding checksum_entry
checksum_entries env [] = []
checksum_entries env (i ∷ is) = checksum_entry env i ∷ checksum_entries env is

unfoldable pub checksum_source : PlaylistEnv → List PlaylistItem → Text
unfolding join_entries checksum_entries
checksum_source env items = join_entries (checksum_entries env items)

unfoldable pub playlist_checksum : PlaylistEnv → ℕ → List PlaylistItem → ℕ
unfolding checksum_source ordered_items
playlist_checksum env p items = env.sha256 (checksum_source env (ordered_items p items))

unfoldable pub has_unavailable : PlaylistDb → ℕ → List PlaylistItem → Bool
unfolding get_accessible_song_by_id
has_unavailable db company items =
    exists (λ i. is_none (get_accessible_song_by_id db.grants db.contents db.songs company i.song))
      items

unfoldable pub assert_all_playlist_songs_available : Option ℕ → ℕ → P (Unit {0})
unfolding has_unavailable ordered_items
assert_all_playlist_songs_available none p = return tt
assert_all_playlist_songs_available (some company) p =
    gets (λ db. has_unavailable db company (ordered_items p db.items)) >>= λ missing.
    raise_if missing playlist_not_publishable

-- The item of a snapshot that an item of the playlist becomes.
abbrev pub snapshot_item : ℕ → ℕ → PlaylistItem → PlaylistSnapshotItem
snapshot_item new_id snapshot i = record {
  id = new_id;
  snapshot = snapshot;
  song = i.song;
  position = i.position;
  weight = i.weight;
}

unfoldable pub create_snapshot_items :
    ℕ
    → (ℕ → ℕ)
    → ℕ
    → List PlaylistItem
    → List PlaylistSnapshotItem
    → Result (List PlaylistSnapshotItem)
create_snapshot_items snapshot fresh n [] rows = ok rows
create_snapshot_items snapshot fresh n (i ∷ is) rows =
    let rest =
      create_snapshot_items snapshot fresh (suc n) is
        (insert (snapshot_item (fresh n) snapshot i) rows) in
    if is_some (get (fresh n) rows)
      || exists (λ r. r.snapshot == snapshot && r.position == i.position) rows
    then err integrity_error
    else rest

abbrev pub on_snapshot_items :
    (List PlaylistSnapshotItem → Result (List PlaylistSnapshotItem)) → P (Unit {0})
on_snapshot_items f db = elim (f db.snapshot_items) [
  | err e ↦ err e
  | ok rows ↦ ok (tt, record db { snapshot_items = rows })
]

unfoldable pub insert_snapshot : PlaylistSnapshot → P (Unit {0})
insert_snapshot s =
    gets (λ db.
      is_some (get s.id db.snapshots)
      || exists (λ t. t.playlist == s.playlist && t.version == s.version) db.snapshots)
    >>= λ broken.
        raise_if broken integrity_error
        >> modify (λ db. record db { snapshots = insert s db.snapshots })

-- Nothing changed since the snapshot: the playlist goes back to it.
unfoldable pub republish : Playlist → PlaylistSnapshot → P PlaylistSnapshot
unfolding bump_revision
republish p latest =
    if playlist_is_published p.status
    then return latest
    else bump_revision
        (record p { status = PlaylistStatus.published; published_at = latest.published_at })
      >> return latest

abbrev pub new_snapshot : Playlist → ℕ → Option ℕ → ℕ → ℕ → PlaylistSnapshot
new_snapshot p checksum actor new_id now = record {
  id = new_id;
  playlist = p.id;
  version = p.current_version + 1;
  checksum = checksum;
  status = SnapshotStatus.published;
  published_by = actor;
  published_at = some now;
  created_at = now;
}

unfoldable pub publish_new : Playlist → ℕ → Option ℕ → ℕ → (ℕ → ℕ) → ℕ → P PlaylistSnapshot
unfolding insert_snapshot create_snapshot_items ordered_items bump_revision
publish_new p checksum actor new_id fresh now =
    insert_snapshot (new_snapshot p checksum actor new_id now)
    >> gets (λ db. ordered_items p.id db.items)
    >>= λ items.
        on_snapshot_items (create_snapshot_items new_id fresh 0 items)
        >> bump_revision (record p {
          current_version = p.current_version + 1;
          status = PlaylistStatus.published;
          published_at = some now;
        })
        >> return (new_snapshot p checksum actor new_id now)

-- `expected_revision is not None and playlist.revision != expected_revision`
abbrev pub is_stale : Playlist → Option ℕ → Bool
is_stale p none = false
is_stale p (some expected) = not (p.revision == expected)

unfoldable pub publish_loaded :
    PlaylistEnv
    → Playlist
    → Option PlaylistSnapshot
    → ℕ
    → Option ℕ
    → Option ℕ
    → ℕ
    → (ℕ → ℕ)
    → ℕ
    → P PlaylistSnapshot
unfolding republish publish_new
publish_loaded env p none checksum actor expected new_id fresh now =
    if is_stale p expected
    then raise playlist_revision_conflict
    else publish_new p checksum actor new_id fresh now
publish_loaded env p (some latest) checksum actor expected new_id fresh now =
    if latest.checksum == checksum
    then (if is_stale p expected then return latest else republish p latest)
    else if is_stale p expected
    then raise playlist_revision_conflict
    else publish_new p checksum actor new_id fresh now

unfoldable pub publish_playlist :
    PlaylistEnv → ℕ → Option ℕ → Option ℕ → Option ℕ → ℕ → (ℕ → ℕ) → ℕ → P PlaylistSnapshot
unfolding assert_all_playlist_songs_available playlist_checksum publish_loaded
publish_playlist env k company actor expected new_id fresh now = load_playlist k >>= λ p.
    gets (λ db. exists (of_playlist p.id) db.items) >>= λ some_items.
    raise_if (not some_items) playlist_not_publishable
    >> assert_all_playlist_songs_available company p.id
    >> gets (λ db. playlist_checksum env p.id db.items)
    >>= λ checksum. gets (λ db. latest_published db.snapshots p.id) >>= λ latest.
        publish_loaded env p latest checksum actor expected new_id fresh now
