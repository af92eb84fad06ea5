-- ===== src/Playlists/Items.antt =====
-- The items of a playlist (apps/playlists/services.py). A row with a position that another item of the
-- playlist holds breaks a constraint of the database, at every single statement.
use brandy_manager_back.Prelude.{
  ℕ, suc, ◌+◌, Option, none, some, List, [], ◌∷◌, map, Bool, true, not, ◌&&◌, ◌||◌, ltb, ◌==◌,
  if◌then◌else◌, is_some, exists, select, length, sort_by,
}
use brandy_manager_back.Result.{
  Result, ok, err, does_not_exist, integrity_error, playlist_revision_conflict,
  playlist_content_unavailable, playlist_order_conflict,
}
use brandy_manager_back.Table.{get, save, insert, delete, update}
use brandy_manager_back.Models.Playlists.{Playlist, PlaylistItem, playlist_row, playlist_item_row}
use brandy_manager_back.Playlists.Store.{P, ◌>>=◌, ◌>>◌, return, gets, or_raise, modify, raise_if}
use brandy_manager_back.Playlists.Catalog.{get_accessible_song_by_id}

abbrev pub of_playlist : ℕ → PlaylistItem → Bool
of_playlist p i = i.playlist == p

-- `order_by("position", "id")`
abbrev pub earlier_item : PlaylistItem → PlaylistItem → Bool
earlier_item a b = ltb a.position b.position || a.position == b.position && ltb a.id b.id

unfoldable pub ordered_items : ℕ → List PlaylistItem → List PlaylistItem
unfolding sort_by
ordered_items p items = sort_by earlier_item (select (of_playlist p) items)

-- The constraint `uniq_playlist_item_position` stands against an item with this key.
unfoldable pub is_occupied : ℕ → ℕ → ℕ → List PlaylistItem → Bool
is_occupied p position k items =
    exists (λ i. of_playlist p i && (i.position == position && not (i.id == k))) items

-- `item.position = position; item.save(update_fields=["position", "updated_at"])`
unfoldable pub save_position : ℕ → ℕ → List PlaylistItem → Result (List PlaylistItem)
unfolding is_occupied
save_position k position items = elim (get k items) [
  | none ↦ err does_not_exist
  | some i ↦
      if is_occupied i.playlist position k items
      then err integrity_error
      else ok (update (λ j. j.id == k) (λ j. record j { position = position }) items)
]

-- `PlaylistItem.objects.create(...)`
unfoldable pub create_item : PlaylistItem → List PlaylistItem → Result (List PlaylistItem)
unfolding is_occupied
create_item i items =
    if is_some (get i.id items) || is_occupied i.playlist i.position i.id items
    then err integrity_error
    else ok (insert i items)

abbrev pub then_items :
    Result (List PlaylistItem)
    → (List PlaylistItem → Result (List PlaylistItem))
    → Result (List PlaylistItem)
then_items r f = elim r [ err e ↦ err e | ok items ↦ f items ]

unfoldable pub create_items : List PlaylistItem → List PlaylistItem → Result (List PlaylistItem)
unfolding create_item
create_items [] items = ok items
create_items (i ∷ is) items = then_items (create_item i items) (λ items'. create_items is items')

-- The loop of `remove_playlist_item`.
unfoldable pub renumber : ℕ → List PlaylistItem → List PlaylistItem → Result (List PlaylistItem)
unfolding save_position
renumber position [] items = ok items
renumber position (c ∷ cs) items =
    then_items (if c.position == position then ok items else save_position c.id position items)
      (λ items'. renumber (suc position) cs items')

-- A loop of `reorder_playlist_items`.
unfoldable pub number_items : ℕ → List ℕ → List PlaylistItem → Result (List PlaylistItem)
unfolding save_position
number_items position [] items = ok items
number_items position (k ∷ ks) items =
    then_items (save_position k position items) (λ items'. number_items (suc position) ks items')

-- Steps on the items of the database.
abbrev pub on_items : (List PlaylistItem → Result (List PlaylistItem)) → P (Unit {0})
on_items f db = elim (f db.items) [
  | err e ↦ err e
  | ok items ↦ ok (tt, record db { items = items })
]

abbrev pub load_playlist : ℕ → P Playlist
load_playlist k = gets (λ db. get k db.playlists) >>= λ found. or_raise found does_not_exist

unfoldable pub assert_expected_revision : Playlist → ℕ → P (Unit {0})
assert_expected_revision p expected =
    raise_if (not (p.revision == expected)) playlist_revision_conflict

unfoldable pub bump_revision : Playlist → P Playlist
bump_revision p =
    let bumped = record p { revision = p.revision + 1 } in
    modify (λ db. record db { playlists = save bumped db.playlists }) >> return bumped

unfoldable pub assert_song_available : ℕ → ℕ → P ℕ
unfolding get_accessible_song_by_id
assert_song_available company song =
    gets (λ db. get_accessible_song_by_id db.grants db.contents db.songs company song) >>= λ found.
    or_raise found playlist_content_unavailable >>= λ s. return s.id

-- A new row of the table.
abbrev pub new_item : ℕ → ℕ → ℕ → ℕ → Option ℕ → ℕ → PlaylistItem
new_item p song position weight actor new_id = record {
  id = new_id;
  playlist = p;
  song = song;
  position = position;
  weight = weight;
  active_from = none;
  active_until = none;
  added_by = actor;
}

-- `order_by("-position").first() or 0`
unfoldable pub max_position : List PlaylistItem → ℕ
max_position [] = 0
max_position (i ∷ is) =
    let rest = max_position is in if ltb rest i.position then i.position else rest

unfoldable pub add_playlist_item : ℕ → ℕ → ℕ → ℕ → ℕ → Option ℕ → ℕ → P Playlist
unfolding assert_expected_revision assert_song_available max_position create_item bump_revision
add_playlist_item company k song weight expected actor new_id = load_playlist k >>= λ p.
    assert_expected_revision p expected >> assert_song_available company song >>= λ s.
    gets (λ db. max_position (select (of_playlist p.id) db.items)) >>= λ top.
    on_items (create_item (new_item p.id s (top + 1) weight actor new_id)) >> bump_revision p

-- One element of the body of the request, and the key that its row gets.
pub record ItemData : Type 0 where
  pub new_id : ℕ
  pub song_id : ℕ
  pub position : ℕ
  pub weight : ℕ

abbrev pub lower_position : ItemData → ItemData → Bool
lower_position a b = ltb a.position b.position

abbrev pub item_row : ℕ → Option ℕ → ItemData → PlaylistItem
item_row p actor d = new_item p d.song_id d.position d.weight actor d.new_id

unfoldable pub assert_songs_available : ℕ → List ItemData → P (Unit {0})
unfolding assert_song_available
assert_songs_available company [] = return tt
assert_songs_available company (d ∷ ds) =
    assert_song_available company d.song_id >> assert_songs_available company ds

unfoldable pub replace_playlist_items : ℕ → ℕ → List ItemData → ℕ → Option ℕ → P Playlist
unfolding assert_expected_revision assert_songs_available create_items bump_revision sort_by
replace_playlist_items company k items expected actor = load_playlist k >>= λ p.
    assert_expected_revision p expected
    >> assert_songs_available company (sort_by lower_position items)
    >> modify (λ db. record db { items = select (λ i. not (of_playlist p.id i)) db.items })
    >> on_items (create_items (map (item_row p.id actor) (sort_by lower_position items)))
    >> bump_revision p

unfoldable pub remove_playlist_item : ℕ → ℕ → ℕ → P Playlist
unfolding assert_expected_revision ordered_items renumber bump_revision
remove_playlist_item k item expected = load_playlist k >>= λ p.
    assert_expected_revision p expected
    >> modify (λ db. record db { items = delete item db.items })
    >> on_items (λ items. renumber 1 (ordered_items p.id items) items)
    >> bump_revision p

-- `set(xs) <= set(ys)`
unfoldable pub is_subset : List ℕ → List ℕ → Bool
is_subset [] ys = true
is_subset (x ∷ xs) ys = exists (λ y. y == x) ys && is_subset xs ys

unfoldable pub is_reordering : List ℕ → List ℕ → Bool
unfolding is_subset
is_reordering current wanted =
    (is_subset current wanted && is_subset wanted current) && length current == length wanted

unfoldable pub reorder_playlist_items : ℕ → List ℕ → ℕ → P Playlist
unfolding assert_expected_revision ordered_items is_reordering number_items bump_revision
reorder_playlist_items k wanted expected = load_playlist k >>= λ p.
    assert_expected_revision p expected
    >> gets (λ db. map (λ i. i.id) (ordered_items p.id db.items))
    >>= λ current.
        raise_if (not (is_reordering current wanted)) playlist_order_conflict
        >> on_items (number_items 100001 wanted)
        >> on_items (number_items 1 wanted)
        >> bump_revision p
