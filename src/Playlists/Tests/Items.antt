-- ===== src/Playlists/Tests/Items.antt =====
-- The items of the playlist: a removal and a reordering.
use brandy_manager_back.Prelude.{
  ℕ, suc, ◌≡◌, refl, List, [], ◌∷◌, ◌++◌, map, Memᴰ, length, true, false, arith,
}
use brandy_manager_back.Models.Playlists.{PlaylistItem}
use brandy_manager_back.Result.{ok}
use brandy_manager_back.Playlists.Store.{PlaylistDb}
use brandy_manager_back.Playlists.Items.{
  ordered_items, is_occupied, save_position, renumber, assert_expected_revision, bump_revision,
  remove_playlist_item, is_subset, is_reordering,
}
use brandy_manager_back.Playlists.Requests.{
  PlaylistRequest, has_duplicates, reorder_distinct_items, remove_own_item, run_playlist,
}
use brandy_manager_back.Playlists.Steps.{IsWellNumbered}
use brandy_manager_back.Playlists.Everything.{run-IsWellNumbered}
use brandy_manager_back.Playlists.Order.{reorder-places}
use brandy_manager_back.Playlists.Tests.Sample.{env, playlist, closing_item, db, db-IsWellNumbered}
use brandy_manager_back.Prelude.{insert_by, sort_by}

abbrev removed : PlaylistDb
removed = record db {
  items = record closing_item { position = 1 } ∷ [];
  playlists = record playlist { revision = 2 } ∷ [];
}

remove_run : run_playlist env 0 (PlaylistRequest.remove 1 10 1) db ≡ ok (tt, removed)
unfolding run_playlist remove_own_item remove_playlist_item assert_expected_revision bump_revision
    renumber save_position is_occupied ordered_items sort_by insert_by
remove_run = refl

run-IsWellNumbered_example : IsWellNumbered removed
run-IsWellNumbered_example =
    run-IsWellNumbered env 0 (PlaylistRequest.remove 1 10 1) db remove_run db-IsWellNumbered

accepted : is_reordering (map (λ i. i.id) (ordered_items 1 db.items)) (11 ∷ 10 ∷ []) ≡ true
unfolding is_reordering is_subset ordered_items sort_by insert_by
accepted = refl

distinct : has_duplicates (11 ∷ 10 ∷ []) ≡ false
unfolding has_duplicates
distinct = refl

reorder-places_example :
    (db' : PlaylistDb) × (reorder_distinct_items 1 (11 ∷ 10 ∷ []) 1 db ≡ ok (tt, db'))
    × ((before : List ℕ) (item : ℕ) (after : List ℕ)
        → 11 ∷ 10 ∷ [] ≡ before ++ item ∷ after
        → (z : PlaylistItem) → Memᴰ z db'.items
        → z.id ≡ item
        → z.position ≡ suc (length before))
reorder-places_example =
    reorder-places db 1 (11 ∷ 10 ∷ []) 1 playlist refl refl db-IsWellNumbered (omega arith) distinct
      accepted
