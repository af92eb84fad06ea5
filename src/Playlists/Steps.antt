-- ===== src/Playlists/Steps.antt =====
-- What each operation of apps/playlists/services.py on the items of a playlist does to the database.
use brandy_manager_back.Prelude.{
  ℕ, ◌+◌, ◌≤◌, ◌≡◌, refl, sym, ap, ◌∙◌, subst, Option, some, List, [], ◌∷◌, map, true, not, is_some,
  arith, inl, inr, Memᴰ, All, length, select, ◌==◌, mem-map, mem-sort_by, length-sort_by,
  length-map, sort_by, Bool-cases, Option-cases,
}
use brandy_manager_back.Result.{ok, Result-cases}
use brandy_manager_back.Table.{get, save, insert, delete, pk-get}
use brandy_manager_back.Models.Playlists.{Playlist, PlaylistItem, playlist_row, playlist_item_row}
use brandy_manager_back.Playlists.Store.{PlaylistDb}
use brandy_manager_back.Playlists.Catalog.{get_accessible_song_by_id}
use brandy_manager_back.Playlists.Items.{
  of_playlist, ordered_items, create_item, create_items, renumber, number_items, max_position,
  assert_expected_revision, assert_song_available, assert_songs_available, bump_revision,
  add_playlist_item, replace_playlist_items, remove_playlist_item, reorder_playlist_items, item_row,
  new_item, ItemData, lower_position,
}
use brandy_manager_back.Playlists.Numbered.{
  IsNumbered, Touches, Touches-IsNumbered, added-Touches, replaced-Touches,
}
use brandy_manager_back.Playlists.Reordering.{is_reordering-Covers, reordered-Touches}
use brandy_manager_back.Playlists.Removing.{removed-Touches}

-- Every item belongs to a stored playlist, and the items of each playlist are numbered from 1.
pub record IsWellNumbered (db : PlaylistDb) : Type 0 where
  pub numbered : IsNumbered db.items
  pub owned : All (λ i. is_some (get i.playlist db.playlists) ≡ true) db.items

pub data ItemChange (db db' : PlaylistDb) : Type 0 where
  same : db'.items ≡ db.items → ItemChange db db'
  touched :
      (p : ℕ)
      → is_some (get p db'.playlists) ≡ true
      → Touches p db.items db'.items
      → ItemChange db db'

pub record PlaylistStep (db db' : PlaylistDb) : Type 0 where
  pub stored : (k : ℕ) → is_some (get k db.playlists) ≡ true → is_some (get k db'.playlists) ≡ true
  pub change : ItemChange db db'

pub PlaylistStep-IsWellNumbered :
    {db db' : PlaylistDb} → PlaylistStep db db' → IsWellNumbered db → IsWellNumbered db'
PlaylistStep-IsWellNumbered {db} {db'} s w = elim s.change [
  | same e ↦ record {
    numbered = subst IsNumbered (sym e) w.numbered;
    owned = λ i m. s.stored i.playlist (w.owned i (subst (Memᴰ i) e m));
  }
  | touched p here t ↦ record {
    numbered = Touches-IsNumbered t w.numbered;
    owned = λ i m. elim (Bool-cases (i.playlist == p)) [
      | inl e ↦ subst (λ k. is_some (get k db'.playlists) ≡ true) (ground arith) here
      | inr e ↦ s.stored i.playlist (w.owned i (t.others i m (ground arith)))
    ];
  }
]

pub stored-save :
    (x : Playlist) (k : ℕ) (xs : List Playlist) → is_some (get k (save x xs)) ≡ is_some (get k xs)
stored-save x k [] = refl
stored-save x k (y ∷ ys) = ground (arith, stored-save x k ys)

pub stored-insert :
    (x : Playlist) (k : ℕ) (xs : List Playlist)
    → is_some (get k xs) ≡ true
    → is_some (get k (insert x xs)) ≡ true
stored-insert x k [] h = absurd (ground (arith, h))
stored-insert x k (y ∷ ys) h = ground (arith, h, stored-insert x k ys)

-- A step that saves a row of a playlist and touches its items, or none.
pub saved-Step :
    {db db' : PlaylistDb} (x : Playlist)
    → db'.playlists ≡ save x db.playlists
    → ItemChange db db'
    → PlaylistStep db db'
saved-Step {db} {db'} x e c = record {
  stored = λ k h. ap (λ t. is_some (get k t)) e ∙ stored-save x k db.playlists ∙ h;
  change = c;
}

-- A step that touches the items of a loaded playlist, and saves its row.
pub touched-Step :
    {db db' : PlaylistDb} (k : ℕ) (p x : Playlist) {ys : List PlaylistItem}
    → get k db.playlists ≡ some p
    → db'.playlists ≡ save x db.playlists
    → db'.items ≡ ys
    → Touches p.id db.items ys
    → PlaylistStep db db'
touched-Step {db} {db'} k p x l e f t = saved-Step x e (
    ItemChange.touched p.id
      (ap (λ t. is_some (get p.id t)) e
        ∙ stored-save x p.id db.playlists
        ∙ ap (λ j. is_some (get j db.playlists)) (pk-get k db.playlists l)
        ∙ ap is_some l)
      (subst (Touches p.id db.items) (sym f) t))

abbrev bumped : Playlist → Playlist
bumped p = record p { revision = p.revision + 1 }

-- The checks of songs write nothing.
songs_available-same :
    (company : ℕ) (items : List ItemData) (db : PlaylistDb) {u : Unit {0}} {db' : PlaylistDb}
    → assert_songs_available company items db ≡ ok (u, db')
    → db' ≡ db
unfolding assert_songs_available assert_song_available
songs_available-same company [] db h = ground arith
songs_available-same company (i ∷ is) db h =
    elim (Option-cases
      (get_accessible_song_by_id db.grants db.contents db.songs company i.song_id)) [
        | inl n ↦ absurd (ground arith)
        | inr (s, l) ↦ songs_available-same company is db (ground arith)
      ]

module _ (db : PlaylistDb) {db' : PlaylistDb} where
  pub add-Step :
      (company k song weight expected : ℕ) (actor : Option ℕ) (new_id : ℕ) {q : Playlist}
      → add_playlist_item company k song weight expected actor new_id db ≡ ok (q, db')
      → IsWellNumbered db
      → PlaylistStep db db'
  unfolding add_playlist_item assert_expected_revision assert_song_available bump_revision
  add-Step company k song weight expected actor new_id {q} h w =
      elim (Option-cases (get k db.playlists)) [
        | inl n ↦ absurd (ground arith)
        | inr (p, l) ↦
            elim (Option-cases
              (get_accessible_song_by_id db.grants db.contents db.songs company song)) [
                | inl n ↦ absurd (ground arith)
                | inr (s, ls) ↦
                    let top = max_position (select (of_playlist p.id) db.items) in
                    let i = new_item p.id s.id (top + 1) weight actor new_id in
                    elim (Result-cases (create_item i db.items)) [
                      | inl (e, c) ↦ absurd (ground (arith, c))
                      | inr (ys, c) ↦
                          touched-Step k p (bumped p) l (ground arith) (ground arith)
                            (added-Touches i db.items c refl w.numbered)
                    ]
              ]
      ]

  -- The positions of a request are from 1 to their number.
  pub replace-Step :
      (company k : ℕ) (items : List ItemData) (expected : ℕ) (actor : Option ℕ) {q : Playlist}
      → replace_playlist_items company k items expected actor db ≡ ok (q, db')
      → All (λ i. 1 ≤ i.position × (i.position ≤ length items)) items
      → IsWellNumbered db
      → PlaylistStep db db'
  unfolding replace_playlist_items assert_expected_revision bump_revision
  replace-Step company k items expected actor {q} h range w =
      let sorted = sort_by lower_position items in
      elim (Option-cases (get k db.playlists)) [
        | inl n ↦ absurd (ground arith)
        | inr (p, l) ↦ elim (Result-cases (assert_songs_available company sorted db)) [
          | inl (e, c) ↦ absurd (ground (arith, c))
          | inr ((u, db1), c) ↦
              let rows = map (item_row p.id actor) sorted in
              let left = select (λ i. not (of_playlist p.id i)) db.items in
              let unread = songs_available-same company sorted db c in
              elim (Result-cases (create_items rows left)) [
                | inl (e, d) ↦ absurd (ground (arith, c, d, unread))
                | inr (ys, d) ↦
                    touched-Step k p (bumped p) l (ground (arith, unread)) (ground (arith, unread))
                      (replaced-Touches p.id rows db.items d
                        (λ i m. ap (λ z. z.playlist) (mem-map (item_row p.id actor) sorted m).2)
                        (λ i m.
                          let (x, mx, e) = mem-map (item_row p.id actor) sorted m in
                          let (lo, hi) = range x (mem-sort_by lower_position items mx) in
                          (
                            omega (arith, lo, ap (λ z. z.position) e),
                            omega (
                              arith,
                              hi,
                              ap (λ z. z.position) e,
                              length-map (item_row p.id actor) sorted,
                              length-sort_by lower_position items,
                            ),
                          ))
                        w.numbered.constrained)
              ]
        ]
      ]

  pub remove-Step :
      (k item expected : ℕ) (i : PlaylistItem) {q : Playlist}
      → remove_playlist_item k item expected db ≡ ok (q, db')
      → Memᴰ i db.items
      → i.id ≡ item
      → i.playlist ≡ k
      → IsWellNumbered db
      → PlaylistStep db db'
  unfolding remove_playlist_item assert_expected_revision bump_revision
  remove-Step k item expected i h mi ei ep w = elim (Option-cases (get k db.playlists)) [
    | inl n ↦ absurd (ground arith)
    | inr (p, l) ↦
        let left = delete item db.items in
        elim (Result-cases (renumber 1 (ordered_items p.id left) left)) [
          | inl (e, c) ↦ absurd (ground (arith, c))
          | inr (ys, c) ↦ touched-Step k p (bumped p) l (ground arith) (ground arith) (
              removed-Touches p.id item i db.items c mi ei (ep ∙ sym (pk-get k db.playlists l))
                w.numbered.constrained)
        ]
  ]

  pub reorder-Step :
      (k : ℕ) (wanted : List ℕ) (expected : ℕ) {q : Playlist}
      → reorder_playlist_items k wanted expected db ≡ ok (q, db')
      → IsWellNumbered db
      → PlaylistStep db db'
  unfolding reorder_playlist_items assert_expected_revision bump_revision
  reorder-Step k wanted expected h w = elim (Option-cases (get k db.playlists)) [
    | inl n ↦ absurd (ground arith)
    | inr (p, l) ↦ elim (Result-cases (number_items 100001 wanted db.items)) [
      | inl (e, c) ↦ absurd (ground (arith, c))
      | inr (mid, c) ↦ elim (Result-cases (number_items 1 wanted mid)) [
        | inl (e, d) ↦ absurd (ground (arith, c, d))
        | inr (ys, d) ↦ touched-Step k p (bumped p) l (ground arith) (ground arith) (
            reordered-Touches p.id wanted db.items c d
              (is_reordering-Covers p.id db.items wanted (ground arith)) w.numbered.constrained)
      ]
    ]
  ]
