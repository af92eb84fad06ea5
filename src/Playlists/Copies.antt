-- ===== src/Playlists/Copies.antt =====
-- The operations of apps/playlists/services.py on whole playlists, and all requests together.
use brandy_manager_back.Prelude.{
  ℕ, suc, ◌≡◌, refl, sym, ap, ◌∙◌, subst, Option, none, some, List, [], ◌∷◌, ◌++◌, is_some, arith,
  inl, inr, Memᴰ, length, Option-cases,
}
use brandy_manager_back.Text.{or_default, Text}
use brandy_manager_back.Result.{ok, Result-cases}
use brandy_manager_back.Table.{get, insert, get-insert_self}
use brandy_manager_back.Models.Playlists.{Playlist, PlaylistItem, playlist_row, playlist_item_row}
use brandy_manager_back.Playlists.Store.{PlaylistDb, PlaylistEnv}
use brandy_manager_back.Playlists.Catalog.{get_accessible_song_by_id}
use brandy_manager_back.Playlists.Codes.{next_available_code}
use brandy_manager_back.Playlists.Items.{
  ordered_items, create_items, assert_expected_revision, assert_song_available, bump_revision,
}
use brandy_manager_back.Playlists.Lifecycle.{
  PlaylistPatch, assert_playlist_limit, insert_playlist, new_playlist, create_playlist, new_code,
  update_playlist_metadata, assert_copyable, copied_items, code_suffix, copy_suffix,
  duplicate_playlist, archive_playlist, reactivate_playlist,
}
use brandy_manager_back.Playlists.Numbered.{Touches, mem-ordered, length-ordered, copied-Touches}
use brandy_manager_back.Playlists.Steps.{
  IsWellNumbered, ItemChange, PlaylistStep, stored-insert, saved-Step,
}

-- A row of the copy has the position of a row of the source.
mem-copied :
    (copy : ℕ) (actor : Option ℕ) (fresh : ℕ → ℕ) (n : ℕ) (is : List PlaylistItem)
    {z : PlaylistItem}
    → Memᴰ z (copied_items copy actor fresh n is)
    → (z.playlist ≡ copy) × (x : PlaylistItem) × Memᴰ x is × (z.position ≡ x.position)
unfolding copied_items
mem-copied copy actor fresh n [] m = elim m [ ]
mem-copied copy actor fresh n (i ∷ is) (Memᴰ.head q) =
    (ap (λ w. w.playlist) q, i, Memᴰ.head refl, ap (λ w. w.position) q)
mem-copied copy actor fresh n (i ∷ is) (Memᴰ.tail t) =
    let (e, x, m, f) = mem-copied copy actor fresh (suc n) is t in (e, x, Memᴰ.tail m, f)

length-copied :
    (copy : ℕ) (actor : Option ℕ) (fresh : ℕ → ℕ) (n : ℕ) (is : List PlaylistItem)
    → length (copied_items copy actor fresh n is) ≡ length is
unfolding copied_items
length-copied copy actor fresh n [] = refl
length-copied copy actor fresh n (i ∷ is) = ap suc (length-copied copy actor fresh (suc n) is)

assert_copyable-same :
    (company : ℕ) (is : List PlaylistItem) (db : PlaylistDb) {u : Unit {0}} {db' : PlaylistDb}
    → assert_copyable company is db ≡ ok (u, db')
    → db' ≡ db
unfolding assert_copyable assert_song_available
assert_copyable-same company [] db h = ground arith
assert_copyable-same company (i ∷ is) db h =
    elim (Option-cases (get_accessible_song_by_id db.grants db.contents db.songs company i.song)) [
      | inl n ↦ absurd (ground arith)
      | inr (s, l) ↦ assert_copyable-same company is db (ground arith)
    ]

-- A step that inserts a row of a playlist.
inserted-Step :
    {db db' : PlaylistDb} (x : Playlist)
    → db'.playlists ≡ insert x db.playlists
    → ItemChange db db'
    → PlaylistStep db db'
inserted-Step {db} x e c = record {
  stored = λ k h. ap (λ t. is_some (get k t)) e ∙ stored-insert x k db.playlists h;
  change = c;
}

-- The rows of a copy, numbered as those of the source.
copied-Step :
    {db db' : PlaylistDb} (source : ℕ) (x : Playlist) (actor : Option ℕ) (fresh : ℕ → ℕ)
    {ys : List PlaylistItem}
    → IsWellNumbered db
    → get x.id db.playlists ≡ none
    → create_items (copied_items x.id actor fresh 0 (ordered_items source db.items)) db.items
      ≡ ok ys
    → db'.playlists ≡ insert x db.playlists
    → db'.items ≡ ys
    → PlaylistStep db db'
copied-Step {db} {db'} source x actor fresh {ys} w n c e f =
    let items = ordered_items source db.items in
    inserted-Step x e (
      ItemChange.touched x.id
        (ap (λ t. is_some (get x.id t)) e ∙ ap is_some (get-insert_self x db.playlists n))
        (subst (Touches x.id db.items) (sym f) (
          copied-Touches x.id (copied_items x.id actor fresh 0 items) db.items c
            (λ i m. (mem-copied x.id actor fresh 0 items m).0)
            (λ i m.
              let (p, y, my, q) = mem-copied x.id actor fresh 0 items m in
              let (mx, o) = mem-ordered source db.items my in
              let (lo, hi) = w.numbered.range source y mx o in
              (
                omega (arith, lo, q),
                omega (
                  arith,
                  hi,
                  q,
                  length-copied x.id actor fresh 0 items,
                  length-ordered source db.items,
                ),
              ))
            (λ z m q.
              absurd (ground (arith, w.owned z m, ap (λ k. is_some (get k db.playlists)) q, n)))
            w.numbered.constrained)))

module _ (env : PlaylistEnv) (db : PlaylistDb) {db' : PlaylistDb} where
  pub create-Step :
      (company : ℕ) (name code description : Text) (actor : Option ℕ) (new_id : ℕ) {q : Playlist}
      → create_playlist env company name code description actor new_id db ≡ ok (q, db')
      → PlaylistStep db db'
  unfolding create_playlist assert_playlist_limit insert_playlist
  create-Step company name code description actor new_id {q} h =
      inserted-Step q (ground arith) (ItemChange.same (ground arith))

  pub duplicate-Step :
      (company k : ℕ) (actor : Option ℕ) (name code : Text) (new_id : ℕ) (fresh : ℕ → ℕ)
      {q : Playlist}
      → duplicate_playlist env company k actor name code new_id fresh db ≡ ok (q, db')
      → IsWellNumbered db
      → PlaylistStep db db'
  unfolding duplicate_playlist assert_playlist_limit insert_playlist
  duplicate-Step company k actor name code new_id fresh {q} h w =
      elim (Option-cases (get k db.playlists)) [
        | inl n ↦ absurd (ground arith)
        | inr (p, l) ↦
            let items = ordered_items p.id db.items in
            elim (Result-cases (assert_copyable company items db)) [
              | inl (e, c) ↦ absurd (ground (arith, c))
              | inr ((u, db1), c) ↦
                  let unread = assert_copyable-same company items db c in
                  elim (Option-cases (
                    next_available_code env (some company) db.playlists
                      (or_default code (p.code ++ code_suffix)))) [
                        | inl n ↦ absurd (ground (arith, unread))
                        | inr (available, a) ↦
                            let x =
                              new_playlist new_id company (or_default name (p.name ++ copy_suffix))
                                available p.description actor in
                            elim (Result-cases
                              (create_items (copied_items new_id actor fresh 0 items) db.items)) [
                                | inl (e, d) ↦ absurd (ground (arith, unread, d))
                                | inr (ys, d) ↦
                                    copied-Step p.id x actor fresh w (ground (arith, unread)) d
                                      (ground (arith, unread)) (ground (arith, unread))
                              ]
                      ]
            ]
      ]

  pub describe-Step :
      (k expected : ℕ) (patch : PlaylistPatch) {q : Playlist}
      → update_playlist_metadata env k expected patch db ≡ ok (q, db')
      → PlaylistStep db db'
  unfolding update_playlist_metadata assert_expected_revision new_code bump_revision
  describe-Step k expected patch {q} h =
      saved-Step q (ground arith) (ItemChange.same (ground arith))

  pub archive-Step :
      (k expected now : ℕ) {q : Playlist}
      → archive_playlist k expected now db ≡ ok (q, db')
      → PlaylistStep db db'
  unfolding archive_playlist assert_expected_revision bump_revision
  archive-Step k expected now {q} h = saved-Step q (ground arith) (ItemChange.same (ground arith))

  pub reactivate-Step :
      (company k expected : ℕ) {q : Playlist}
      → reactivate_playlist company k expected db ≡ ok (q, db')
      → PlaylistStep db db'
  unfolding reactivate_playlist assert_expected_revision assert_playlist_limit bump_revision
  reactivate-Step company k expected {q} h =
      saved-Step q (ground arith) (ItemChange.same (ground arith))
