-- ===== src/Playlists/Requests.antt =====
-- The requests on the playlists of a company, with what apps/playlists/views.py and
-- apps/playlists/serializers.py check before the service is called.
use brandy_manager_back.Prelude.{
  ℕ, suc, Option, List, [], ◌∷◌, map, Bool, true, false, not, ◌&&◌, ◌||◌, ltb, ◌==◌, exists, select,
  sort_by,
}
use brandy_manager_back.Text.{Text}
use brandy_manager_back.Result.{validation_error, playlist_item_not_found}
use brandy_manager_back.Table.{get}
use brandy_manager_back.Models.Playlists.{playlist_item_row}
use brandy_manager_back.Playlists.Store.{
  PlaylistEnv, P, ◌>>=◌, ◌>>◌, return, gets, or_raise, raise_if,
}
use brandy_manager_back.Playlists.Items.{
  ItemData, of_playlist, add_playlist_item, replace_playlist_items, remove_playlist_item,
  reorder_playlist_items,
}
use brandy_manager_back.Playlists.Lifecycle.{
  PlaylistPatch, create_playlist, update_playlist_metadata, duplicate_playlist, archive_playlist,
  reactivate_playlist,
}
use brandy_manager_back.Playlists.Publishing.{publish_playlist}

-- `len(values) != len(set(values))`
unfoldable pub has_duplicates : List ℕ → Bool
has_duplicates [] = false
has_duplicates (x ∷ xs) = exists (λ y. y == x) xs || has_duplicates xs

-- `values == list(range(first, first + len(values)))`
unfoldable pub is_range : ℕ → List ℕ → Bool
is_range first [] = true
is_range first (x ∷ xs) = x == first && is_range (suc first) xs

unfoldable pub has_valid_positions : List ItemData → Bool
unfolding has_duplicates is_range sort_by
has_valid_positions items =
    not (has_duplicates (map (λ i. i.position) items))
    && is_range 1 (sort_by ltb (map (λ i. i.position) items))

pub data PlaylistRequest : Type 0 where
  create : ℕ → Text → Text → Text → Option ℕ → ℕ → PlaylistRequest
  describe : ℕ → ℕ → PlaylistPatch → PlaylistRequest
  add : ℕ → ℕ → ℕ → ℕ → ℕ → Option ℕ → ℕ → PlaylistRequest
  replace : ℕ → ℕ → List ItemData → ℕ → Option ℕ → PlaylistRequest
  remove : ℕ → ℕ → ℕ → PlaylistRequest
  reorder : ℕ → List ℕ → ℕ → PlaylistRequest
  duplicate : ℕ → ℕ → Option ℕ → Text → Text → ℕ → (ℕ → ℕ) → PlaylistRequest
  publish : ℕ → Option ℕ → Option ℕ → Option ℕ → ℕ → (ℕ → ℕ) → PlaylistRequest
  archive : ℕ → ℕ → PlaylistRequest
  reactivate : ℕ → ℕ → ℕ → PlaylistRequest

-- `get_playlist_item(playlist=playlist, item_id=item_id)`
unfoldable pub remove_own_item : ℕ → ℕ → ℕ → P (Unit {0})
unfolding remove_playlist_item
remove_own_item k item expected =
    gets (λ db. get item (select (of_playlist k) db.items)) >>= λ found.
    or_raise found playlist_item_not_found >>= λ i.
    remove_playlist_item k i.id expected >> return tt

unfoldable pub replace_valid_items : ℕ → ℕ → List ItemData → ℕ → Option ℕ → P (Unit {0})
unfolding has_valid_positions replace_playlist_items
replace_valid_items company k items expected actor =
    raise_if (not (has_valid_positions items)) (validation_error "items")
    >> replace_playlist_items company k items expected actor
    >> return tt

unfoldable pub reorder_distinct_items : ℕ → List ℕ → ℕ → P (Unit {0})
unfolding has_duplicates reorder_playlist_items
reorder_distinct_items k wanted expected =
    raise_if (has_duplicates wanted) (validation_error "item_ids")
    >> reorder_playlist_items k wanted expected
    >> return tt

unfoldable pub run_playlist : PlaylistEnv → ℕ → PlaylistRequest → P (Unit {0})
unfolding create_playlist update_playlist_metadata add_playlist_item replace_valid_items
    remove_own_item reorder_distinct_items duplicate_playlist publish_playlist archive_playlist
    reactivate_playlist
run_playlist env now (PlaylistRequest.create company name code description actor new_id) =
    create_playlist env company name code description actor new_id >> return tt
run_playlist env now (PlaylistRequest.describe k expected patch) =
    update_playlist_metadata env k expected patch >> return tt
run_playlist env now (PlaylistRequest.add company k song weight expected actor new_id) =
    add_playlist_item company k song weight expected actor new_id >> return tt
run_playlist env now (PlaylistRequest.replace company k items expected actor) =
    replace_valid_items company k items expected actor
run_playlist env now (PlaylistRequest.remove k item expected) = remove_own_item k item expected
run_playlist env now (PlaylistRequest.reorder k wanted expected) =
    reorder_distinct_items k wanted expected
run_playlist env now (PlaylistRequest.duplicate company k actor name code new_id fresh) =
    duplicate_playlist env company k actor name code new_id fresh >> return tt
run_playlist env now (PlaylistRequest.publish k company actor expected new_id fresh) =
    publish_playlist env k company actor expected new_id fresh now >> return tt
run_playlist env now (PlaylistRequest.archive k expected) =
    archive_playlist k expected now >> return tt
run_playlist env now (PlaylistRequest.reactivate company k expected) =
    reactivate_playlist company k expected >> return tt
