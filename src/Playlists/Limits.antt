-- ===== src/Playlists/Limits.antt =====
-- Creating a playlist below the limit of the plan (apps/playlists/services.py, `create_playlist`).
use Prim.Native.Nat.{◌^◌}
use brandy_manager_back.Prelude.{
  ℕ, suc, ◌≤◌, ◌<◌, ◌≡◌, Option, none, some, List, [], ◌∷◌, false, arith, length, refl, true,
}
use brandy_manager_back.Text.{or_default, fits, Text}
use brandy_manager_back.Result.{ok}
use brandy_manager_back.Table.{get, insert}
use brandy_manager_back.Billing.{reaches, LimitKey, company_limit}
use brandy_manager_back.Models.Playlists.{Playlist, playlist_row}
use brandy_manager_back.Playlists.Store.{PlaylistDb, PlaylistEnv}
use brandy_manager_back.Playlists.Codes.{is_taken}
use brandy_manager_back.Playlists.CodeLoop.{next_available_code-ends, next_available_code-fits}
use brandy_manager_back.Playlists.Lifecycle.{
  count_billable_playlists, assert_playlist_limit, insert_playlist, new_playlist, create_playlist,
}

count_billable-insert :
    (company : ℕ) (p : Playlist) (xs : List Playlist)
    → count_billable_playlists company (insert p xs) ≤ suc (count_billable_playlists company xs)
unfolding count_billable_playlists
count_billable-insert company p [] = ground arith
count_billable-insert company p (x ∷ xs) = ground (arith, count_billable-insert company p xs)

-- Below the limit of the plan, or without one, a company can create a playlist with any name of 1 to 255
-- characters, whatever code it sends, as long as there are fewer than 10 ^ 118 playlists and the new key
-- is unused. The playlist gets that name and a code of 1 to 120 characters that the company had not, and
-- the playlists of the company stay within the limit.
pub create_playlist-succeeds :
    (env : PlaylistEnv) (company : ℕ) (name code description : Text) (actor : Option ℕ) (new_id : ℕ)
    (db : PlaylistDb)
    → reaches
        (count_billable_playlists company db.playlists)
        (company_limit LimitKey.playlists db.plans db.subscriptions company)
      ≡ false
    → fits 255 name ≡ true
    → get new_id db.playlists ≡ none
    → length db.playlists < 10 ^ 118
    → (p : Playlist) × (db' : PlaylistDb) × (create_playlist env company name code description actor
          new_id db
        ≡ ok (p, db'))
      × (is_taken (some company) db.playlists p.code ≡ false)
      × (p.name ≡ name)
      × (fits 120 p.code ≡ true)
      × ((limit : ℕ)
          → company_limit LimitKey.playlists db.plans db.subscriptions company ≡ some limit
          → count_billable_playlists company db'.playlists ≤ limit)
unfolding create_playlist assert_playlist_limit insert_playlist
create_playlist-succeeds env company name code description actor new_id db room named unused small =
    let (available, found, free, short) =
      next_available_code-ends env (some company) db.playlists (or_default code name) small in
    let full =
      next_available_code-fits env (some company) db.playlists (or_default code name) found short in
    let p = new_playlist new_id company name available description actor in
    let after_db : PlaylistDb = record db { playlists = insert p db.playlists } in
    (
      p,
      after_db,
      ground (arith, room, named, full, found, unused, free),
      free,
      refl,
      full,
      λ limit l. ground (arith, count_billable-insert company p db.playlists, l, room),
    )
