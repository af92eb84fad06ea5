-- ===== src/Playlists/Everything.antt =====
-- Every request of apps/playlists/services.py keeps the numbering of playlists.
use brandy_manager_back.Prelude.{
  ℕ, suc, ◌+◌, ◌≤◌, ◌<◌, ◌≡◌, refl, ap, ◌∙◌, Option, none, some, List, [], ◌∷◌, map, true, is_some,
  arith, inl, inr, Memᴰ, All, length, select, ltb, ◌==◌, sort_by, mem-select, map-mem, sort_by-mem,
  length-sort_by, length-map, Bool-cases, Option-cases,
}
use brandy_manager_back.Result.{ok}
use brandy_manager_back.Table.{get, mem-get}
use brandy_manager_back.Transaction.{ran}
use brandy_manager_back.Models.Playlists.{
  Playlist, PlaylistStatus, PlaylistSnapshot, playlist_is_published, latest_published, playlist_row,
  playlist_item_row,
}
use brandy_manager_back.Playlists.Store.{PlaylistDb, PlaylistEnv}
use brandy_manager_back.Playlists.Items.{
  of_playlist, bump_revision, ItemData, add_playlist_item, replace_playlist_items,
  remove_playlist_item, reorder_playlist_items,
}
use brandy_manager_back.Playlists.Lifecycle.{
  create_playlist, update_playlist_metadata, duplicate_playlist, archive_playlist,
  reactivate_playlist,
}
use brandy_manager_back.Playlists.Publishing.{
  publish_playlist, publish_loaded, publish_new, republish, is_stale, insert_snapshot,
  playlist_checksum, assert_all_playlist_songs_available,
}
use brandy_manager_back.Playlists.Requests.{
  PlaylistRequest, is_range, has_valid_positions, remove_own_item, replace_valid_items,
  reorder_distinct_items, run_playlist,
}
use brandy_manager_back.Playlists.Steps.{
  IsWellNumbered, ItemChange, PlaylistStep, PlaylistStep-IsWellNumbered, saved-Step, add-Step,
  replace-Step, remove-Step, reorder-Step,
}
use brandy_manager_back.Playlists.Copies.{
  create-Step, duplicate-Step, describe-Step, archive-Step, reactivate-Step,
}

is_range-mem :
    (first : ℕ) (xs : List ℕ)
    → is_range first xs ≡ true
    → {x : ℕ} → Memᴰ x xs
    → first ≤ x × (x < first + length xs)
unfolding is_range
is_range-mem first [] h m = elim m [ ]
is_range-mem first (y ∷ ys) h (Memᴰ.head q) = (ground (arith, q), ground (arith, q))
is_range-mem first (y ∷ ys) h (Memᴰ.tail t) =
    let (l, u) = is_range-mem (suc first) ys (ground arith) t in
    (omega (arith, l), omega (arith, u))

-- Accepted positions are from 1 to their number.
has_valid_positions-range :
    (items : List ItemData)
    → has_valid_positions items ≡ true
    → All (λ i. 1 ≤ i.position × (i.position ≤ length items)) items
unfolding has_valid_positions
has_valid_positions-range items h i m =
    let positions = map (λ d. d.position) items in
    let (l, u) =
      is_range-mem 1 (sort_by ltb positions) (ground arith)
        (sort_by-mem ltb positions (map-mem (λ d. d.position) items m)) in
    (l, omega (arith, u, length-sort_by ltb positions, length-map (λ d. d.position) items))

same-Step :
    {db db' : PlaylistDb}
    → db'.playlists ≡ db.playlists
    → db'.items ≡ db.items
    → PlaylistStep db db'
same-Step e f = record {
  stored = λ k h. ap (λ t. is_some (get k t)) e ∙ h;
  change = ItemChange.same f;
}

publish_new-Step :
    (p : Playlist) (checksum : ℕ) (actor : Option ℕ) (new_id : ℕ) (fresh : ℕ → ℕ) (now : ℕ)
    (db : PlaylistDb) {s : PlaylistSnapshot} {db' : PlaylistDb}
    → publish_new p checksum actor new_id fresh now db ≡ ok (s, db')
    → PlaylistStep db db'
unfolding publish_new insert_snapshot bump_revision
publish_new-Step p checksum actor new_id fresh now db h =
    saved-Step
      (record p {
        current_version = p.current_version + 1;
        status = PlaylistStatus.published;
        published_at = some now;
        revision = p.revision + 1;
      })
      (ground arith) (ItemChange.same (ground arith))

republish-Step :
    (p : Playlist) (s : PlaylistSnapshot) (db : PlaylistDb) {t : PlaylistSnapshot}
    {db' : PlaylistDb}
    → republish p s db ≡ ok (t, db')
    → PlaylistStep db db'
unfolding republish bump_revision
republish-Step p s db {t} {db'} h = elim (Bool-cases (playlist_is_published p.status)) [
  | inl e ↦ same-Step (ground (arith, e)) (ground (arith, e))
  | inr e ↦
      saved-Step
        (record p {
          status = PlaylistStatus.published;
          published_at = s.published_at;
          revision = p.revision + 1;
        })
        (ground (arith, e)) (ItemChange.same (ground (arith, e)))
]

publish_loaded-Step :
    (env : PlaylistEnv) (p : Playlist) (latest : Option PlaylistSnapshot) (checksum : ℕ)
    (actor expected : Option ℕ) (new_id : ℕ) (fresh : ℕ → ℕ) (now : ℕ) (db : PlaylistDb)
    {s : PlaylistSnapshot} {db' : PlaylistDb}
    → publish_loaded env p latest checksum actor expected new_id fresh now db ≡ ok (s, db')
    → PlaylistStep db db'
unfolding publish_loaded
publish_loaded-Step env p none checksum actor expected new_id fresh now db {s} h =
    publish_new-Step p checksum actor new_id fresh now db {s = s} (ground arith)
publish_loaded-Step env p (some s) checksum actor expected new_id fresh now db {s = t} h =
    elim (Bool-cases (s.checksum == checksum)) [
      | inl e ↦ elim (Bool-cases (is_stale p expected)) [
        | inl f ↦ same-Step (ground (arith, e, f)) (ground (arith, e, f))
        | inr f ↦ republish-Step p s db {t = t} (ground (arith, e, f))
      ]
      | inr e ↦ publish_new-Step p checksum actor new_id fresh now db {s = t} (ground (arith, e))
    ]

publish-Step :
    (env : PlaylistEnv) (k : ℕ) (company actor expected : Option ℕ) (new_id : ℕ) (fresh : ℕ → ℕ)
    (now : ℕ) (db : PlaylistDb) {s : PlaylistSnapshot} {db' : PlaylistDb}
    → publish_playlist env k company actor expected new_id fresh now db ≡ ok (s, db')
    → PlaylistStep db db'
unfolding publish_playlist assert_all_playlist_songs_available
publish-Step env k company actor expected new_id fresh now db {s} {db'} h =
    elim (Option-cases (get k db.playlists)) [
      | inl n ↦ absurd (ground arith)
      | inr (p, l) ↦
          publish_loaded-Step env p (latest_published db.snapshots p.id)
            (playlist_checksum env p.id db.items) actor expected new_id fresh now db
            (checked company h l)
    ]
  where
    checked :
        (company : Option ℕ) {p : Playlist}
        → publish_playlist env k company actor expected new_id fresh now db ≡ ok (s, db')
        → get k db.playlists ≡ some p
        → publish_loaded env p
            (latest_published db.snapshots p.id)
            (playlist_checksum env p.id db.items)
            actor
            expected
            new_id
            fresh
            now
            db
          ≡ ok (s, db')
    checked none h l = ground (arith, l)
    checked (some c) h l = ground (arith, l)

run-Step :
    (env : PlaylistEnv) (now : ℕ) (r : PlaylistRequest) (db : PlaylistDb) {u : Unit {0}}
    {db' : PlaylistDb}
    → run_playlist env now r db ≡ ok (u, db')
    → IsWellNumbered db
    → PlaylistStep db db'
unfolding run_playlist replace_valid_items remove_own_item reorder_distinct_items
run-Step env now (PlaylistRequest.create c n code d a i) db h w =
    create-Step env db c n code d a i (ran (create_playlist env c n code d a i) {db = db} h).1
run-Step env now (PlaylistRequest.describe k e p) db h w =
    describe-Step env db k e p (ran (update_playlist_metadata env k e p) {db = db} h).1
run-Step env now (PlaylistRequest.add c k s weight e a i) db h w =
    add-Step db c k s weight e a i (ran (add_playlist_item c k s weight e a i) {db = db} h).1 w
run-Step env now (PlaylistRequest.replace c k is e a) db h w =
    replace-Step db c k is e a (ran (replace_playlist_items c k is e a) {db = db} (ground arith)).1
      (has_valid_positions-range is (ground arith)) w
run-Step env now (PlaylistRequest.remove k item e) db h w =
    elim (Option-cases (get item (select (of_playlist k) db.items))) [
      | inl n ↦ absurd (ground arith)
      | inr (i, l) ↦
          let (m, o) =
            mem-select (of_playlist k) db.items
              (mem-get item (select (of_playlist k) db.items) l) in
          remove-Step db k i.id e i
            (ran (remove_playlist_item k i.id e) {db = db} (ground (arith, l))).1 m refl
            (ground (arith, o)) w
    ]
run-Step env now (PlaylistRequest.reorder k ks e) db h w =
    reorder-Step db k ks e (ran (reorder_playlist_items k ks e) {db = db} (ground arith)).1 w
run-Step env now (PlaylistRequest.duplicate c k a n code i fresh) db h w =
    duplicate-Step env db c k a n code i fresh
      (ran (duplicate_playlist env c k a n code i fresh) {db = db} h).1 w
run-Step env now (PlaylistRequest.publish k c a e i fresh) db h w =
    publish-Step env k c a e i fresh now db
      (ran (publish_playlist env k c a e i fresh now) {db = db} h).1
run-Step env now (PlaylistRequest.archive k e) db h w =
    archive-Step env db k e now (ran (archive_playlist k e now) {db = db} h).1
run-Step env now (PlaylistRequest.reactivate c k e) db h w =
    reactivate-Step env db c k e (ran (reactivate_playlist c k e) {db = db} h).1

-- Every accepted request on playlists keeps this: every item belongs to a stored playlist, no two items
-- of a playlist are at one position, and the positions are from 1 to the number of its items.
pub run-IsWellNumbered :
    (env : PlaylistEnv) (now : ℕ) (r : PlaylistRequest) (db : PlaylistDb) {u : Unit {0}}
    {db' : PlaylistDb}
    → run_playlist env now r db ≡ ok (u, db')
    → IsWellNumbered db
    → IsWellNumbered db'
run-IsWellNumbered env now r db h w = PlaylistStep-IsWellNumbered (run-Step env now r db h w) w
