-- ===== src/Playlists/Republishing.antt =====
-- Publishing a playlist twice (apps/playlists/services.py, `publish_playlist`).
use brandy_manager_back.Prelude.{
  ℕ, ◌≤◌, ◌≡◌, refl, sym, ap, ◌∙◌, subst, Option, none, some, true, false, arith, All, exists,
}
use brandy_manager_back.Result.{ok}
use brandy_manager_back.Table.{get, pk-get}
use brandy_manager_back.Models.Playlists.{
  Playlist, PlaylistSnapshot, playlist_is_published, latest_published, playlist_row,
  playlist_snapshot_row,
}
use brandy_manager_back.Playlists.Store.{PlaylistDb, PlaylistEnv}
use brandy_manager_back.Playlists.Items.{of_playlist}
use brandy_manager_back.Playlists.Publishing.{
  playlist_checksum, has_unavailable, assert_all_playlist_songs_available, republish, is_stale,
  publish_loaded, publish_playlist,
}
use brandy_manager_back.Playlists.Published.{publish_loaded-Published}

-- The checks before: there are items, all of them available to the company, if one is given.
publish-checked :
    (env : PlaylistEnv) (k : ℕ) (company actor expected : Option ℕ) (new_id : ℕ) (fresh : ℕ → ℕ)
    (now : ℕ) (db : PlaylistDb) (p : Playlist) {s : PlaylistSnapshot} {db' : PlaylistDb}
    → publish_playlist env k company actor expected new_id fresh now db ≡ ok (s, db')
    → get k db.playlists ≡ some p
    → (exists (of_playlist p.id) db.items ≡ true)
      × (assert_all_playlist_songs_available company p.id db ≡ ok (tt, db))
      × (publish_loaded env p
            (latest_published db.snapshots p.id)
            (playlist_checksum env p.id db.items)
            actor
            expected
            new_id
            fresh
            now
            db
          ≡ ok (s, db'))
unfolding publish_playlist assert_all_playlist_songs_available
publish-checked env k none actor expected new_id fresh now db p h l =
    (ground (arith, l), refl, ground (arith, l))
publish-checked env k (some c) actor expected new_id fresh now db p h l =
    (ground (arith, l), ground (arith, l), ground (arith, l))

-- The checks read the items and the catalog only.
available-again :
    (company : Option ℕ) (p : ℕ) (db db' : PlaylistDb)
    → assert_all_playlist_songs_available company p db ≡ ok (tt, db)
    → db'.items ≡ db.items
    → db'.grants ≡ db.grants
    → db'.contents ≡ db.contents
    → db'.songs ≡ db.songs
    → assert_all_playlist_songs_available company p db' ≡ ok (tt, db')
unfolding assert_all_playlist_songs_available has_unavailable
available-again none p db db' h i g c s = refl
available-again (some k) p db db' h i g c s = ground (arith, h, i, g, c, s)

-- A published playlist whose latest snapshot is of its items is left alone.
publish-current :
    (env : PlaylistEnv) (k : ℕ) (company actor expected : Option ℕ) (new_id : ℕ) (fresh : ℕ → ℕ)
    (now : ℕ) (db : PlaylistDb) (p : Playlist) (s : PlaylistSnapshot)
    → get k db.playlists ≡ some p
    → playlist_is_published p.status ≡ true
    → exists (of_playlist p.id) db.items ≡ true
    → assert_all_playlist_songs_available company p.id db ≡ ok (tt, db)
    → latest_published db.snapshots p.id ≡ some s
    → s.checksum ≡ playlist_checksum env p.id db.items
    → publish_playlist env k company actor expected new_id fresh now db ≡ ok (s, db)
unfolding publish_playlist publish_loaded republish
publish-current env k company actor expected new_id fresh now db p s l published some_items
      available latest sum =
    ground (arith, l, published, some_items, available, latest, sum)

-- A playlist that was published at a revision that was not stale, with no later snapshot than its
-- version, can be published again at once, by anybody and at any expected revision, the stale one of the
-- first request too: the same snapshot is returned, and nothing is written.
pub publish_playlist-idempotent :
    (env : PlaylistEnv) (k : ℕ) (company actor expected : Option ℕ) (new_id : ℕ) (fresh : ℕ → ℕ)
    (now : ℕ) (db : PlaylistDb) (p : Playlist) {s : PlaylistSnapshot} {db' : PlaylistDb}
    → publish_playlist env k company actor expected new_id fresh now db ≡ ok (s, db')
    → get k db.playlists ≡ some p
    → is_stale p expected ≡ false
    → All (λ t. t.playlist ≡ k → t.version ≤ p.current_version) db.snapshots
    → (actor2 expected2 : Option ℕ) (new_id2 : ℕ) (fresh2 : ℕ → ℕ) (now2 : ℕ)
    → publish_playlist env k company actor2 expected2 new_id2 fresh2 now2 db' ≡ ok (s, db')
publish_playlist-idempotent env k company actor expected new_id fresh now db p {s} {db'} h l f older
      actor2 expected2 new_id2 fresh2 now2 =
    let same = pk-get k db.playlists l in
    let (some_items, available, loaded) =
      publish-checked env k company actor expected new_id fresh now db p h l in
    let done =
      publish_loaded-Published env p (playlist_checksum env p.id db.items) actor expected new_id
        fresh now db (latest_published db.snapshots p.id) loaded f refl
        (ap (λ j. get j db.playlists) same ∙ l) (λ t m e. older t m (e ∙ same)) in
    let (q, lq, published) = done.row in
    let to_q : q.id ≡ p.id = pk-get p.id db'.playlists lq in
    publish-current env k company actor2 expected2 new_id2 fresh2 now2 db' q s
      (ap (λ j. get j db'.playlists) (sym same) ∙ lq) published
      (ap (λ j. exists (of_playlist j) db'.items) to_q
        ∙ ap (exists (of_playlist p.id)) done.items
        ∙ some_items)
      (subst (λ j. assert_all_playlist_songs_available company j db' ≡ ok (tt, db')) (sym to_q)
        (available-again company p.id db db' available done.items done.grants done.contents
          done.songs))
      (ap (latest_published db'.snapshots) to_q ∙ done.latest)
      (done.sum
        ∙ ap (playlist_checksum env p.id) (sym done.items)
        ∙ ap (λ j. playlist_checksum env j db'.items) (sym to_q))
