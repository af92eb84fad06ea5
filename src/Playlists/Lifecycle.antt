-- ===== src/Playlists/Lifecycle.antt =====
-- Creating, describing, copying, archiving and reactivating a playlist (apps/playlists/services.py).
-- The row of the company is only locked, which makes its requests sequential.
use brandy_manager_back.Prelude.{
  ℕ, or_keep, suc, Option, none, some, List, [], ◌∷◌, ◌++◌, Bool, not, ◌&&◌, ◌==◌, is_some, exists,
  select, length, same_key,
}
use brandy_manager_back.Text.{or_default, fits, Text}
use brandy_manager_back.Result.{
  Error, diverged, integrity_error, validation_error, playlist_limit_reached,
  playlist_code_conflict, playlist_in_use,
}
use brandy_manager_back.Table.{get, insert}
use brandy_manager_back.Billing.{reaches, LimitKey, company_limit}
use brandy_manager_back.Models.Playlists.{
  Playlist, PlaylistItem, PlaylistType, PlaylistStatus, Visibility, playlist_is_archived,
  playlist_row,
}
use brandy_manager_back.Models.Scheduling.{ScheduleBlock}
use brandy_manager_back.Playlists.Store.{
  PlaylistEnv, P, ◌>>=◌, ◌>>◌, return, gets, or_raise, modify, raise_if,
}
use brandy_manager_back.Playlists.Codes.{normalize_playlist_code, next_available_code, is_taken}
use brandy_manager_back.Playlists.Items.{
  load_playlist, assert_expected_revision, assert_song_available, bump_revision, ordered_items,
  create_items, on_items,
}

unfoldable pub count_billable_playlists : ℕ → List Playlist → ℕ
count_billable_playlists company playlists = length (
    select (λ p. same_key p.owner_company (some company) && not (playlist_is_archived p.status))
      playlists)

unfoldable pub assert_playlist_limit : ℕ → P (Unit {0})
unfolding count_billable_playlists company_limit
assert_playlist_limit company =
    gets (λ db.
      reaches (count_billable_playlists company db.playlists)
        (company_limit LimitKey.playlists db.plans db.subscriptions company))
    >>= λ full. raise_if full playlist_limit_reached

-- The columns of a playlist that a request fills: `full_clean`, which `save` runs first, checks them.
abbrev pub playlist_columns : Playlist → Bool
playlist_columns p = fits 255 p.name && fits 120 p.code

-- `Playlist.objects.create(...)`, and the error that a broken constraint raises
unfoldable pub insert_playlist : Playlist → Error → P Playlist
unfolding is_taken
insert_playlist p broken =
    raise_if (not (playlist_columns p)) (validation_error "columns")
    >> gets (λ db. is_some (get p.id db.playlists))
    >>= λ used.
        raise_if used broken
        >> gets (λ db. is_taken p.owner_company db.playlists p.code)
        >>= λ taken.
            raise_if taken broken
            >> modify (λ db. record db { playlists = insert p db.playlists })
            >> return p

abbrev pub new_playlist : ℕ → ℕ → Text → Text → Text → Option ℕ → Playlist
new_playlist new_id company name code description actor = record {
  id = new_id;
  owner_company = some company;
  name = name;
  code = code;
  description = description;
  playlist_type = PlaylistType.manual;
  visibility = Visibility.private;
  status = PlaylistStatus.draft;
  current_version = 0;
  revision = 1;
  published_at = none;
  created_by = actor;
  archived_at = none;
}

unfoldable pub create_playlist : PlaylistEnv → ℕ → Text → Text → Text → Option ℕ → ℕ → P Playlist
unfolding assert_playlist_limit next_available_code insert_playlist
create_playlist env company name code description actor new_id =
    assert_playlist_limit company
    >> gets (λ db. next_available_code env (some company) db.playlists (or_default code name))
    >>= λ found. or_raise found diverged >>= λ available.
        insert_playlist (new_playlist new_id company name available description actor)
          playlist_code_conflict

-- The body of an update: a field that is not sent is left as it is.
pub record PlaylistPatch : Type 0 where
  pub name : Option Text
  pub code : Option Text
  pub description : Option Text

-- `.exclude(id=playlist.id)`
unfoldable pub is_taken_by_other : Playlist → List Playlist → Text → Bool
unfolding is_taken
is_taken_by_other p playlists code =
    is_taken p.owner_company (select (λ q. not (q.id == p.id)) playlists) code

unfoldable pub new_code : PlaylistEnv → Playlist → Option Text → P Text
unfolding normalize_playlist_code is_taken_by_other
new_code env p none = return p.code
new_code env p (some sent) =
    let code = normalize_playlist_code env (or_default sent p.name) in
    gets (λ db. is_taken_by_other p db.playlists code) >>= λ taken.
    raise_if taken playlist_code_conflict >> return code

unfoldable pub update_playlist_metadata : PlaylistEnv → ℕ → ℕ → PlaylistPatch → P Playlist
unfolding assert_expected_revision new_code bump_revision
update_playlist_metadata env k expected patch = load_playlist k >>= λ p.
    assert_expected_revision p expected >> new_code env p patch.code >>= λ code.
    let q = record p {
      name = or_keep patch.name p.name;
      code = code;
      description = or_keep patch.description p.description;
    } in
    raise_if (not (playlist_columns q)) (validation_error "columns") >> bump_revision q

unfoldable pub assert_copyable : ℕ → List PlaylistItem → P (Unit {0})
unfolding assert_song_available
assert_copyable company [] = return tt
assert_copyable company (i ∷ is) =
    assert_song_available company i.song >> assert_copyable company is

-- The rows of the copy: `fresh n` is the key of its n-th row.
unfoldable pub copied_items : ℕ → Option ℕ → (ℕ → ℕ) → ℕ → List PlaylistItem → List PlaylistItem
copied_items copy actor fresh n [] = []
copied_items copy actor fresh n (i ∷ is) =
    record i { id = fresh n; playlist = copy; added_by = actor }
    ∷ copied_items copy actor fresh (suc n) is

-- `" copia"` and `"-COPIA"`
abbrev pub copy_suffix : Text
copy_suffix = 32 ∷ 99 ∷ 111 ∷ 112 ∷ 105 ∷ 97 ∷ []

abbrev pub code_suffix : Text
code_suffix = 45 ∷ 67 ∷ 79 ∷ 80 ∷ 73 ∷ 65 ∷ []

unfoldable pub duplicate_playlist :
    PlaylistEnv → ℕ → ℕ → Option ℕ → Text → Text → ℕ → (ℕ → ℕ) → P Playlist
unfolding assert_playlist_limit ordered_items assert_copyable next_available_code insert_playlist
    copied_items create_items
duplicate_playlist env company k actor name code new_id fresh = load_playlist k >>= λ source.
    assert_playlist_limit company >> gets (λ db. ordered_items source.id db.items) >>= λ items.
    assert_copyable company items
    >> gets (λ db.
      next_available_code env (some company) db.playlists
        (or_default code (source.code ++ code_suffix)))
    >>= λ found. or_raise found diverged >>= λ available.
        insert_playlist
          (new_playlist new_id company (or_default name (source.name ++ copy_suffix)) available
            source.description actor)
          integrity_error
        >>= λ copy.
            on_items (create_items (copied_items copy.id actor fresh 0 items)) >> return copy

-- The blocks of schedules alone: an exception of a schedule does not count.
unfoldable pub playlist_has_schedule_usage : ℕ → List ScheduleBlock → Bool
playlist_has_schedule_usage k blocks = exists (λ b. same_key b.playlist (some k)) blocks

unfoldable pub archive_playlist : ℕ → ℕ → ℕ → P Playlist
unfolding assert_expected_revision playlist_has_schedule_usage bump_revision
archive_playlist k expected now = load_playlist k >>= λ p.
    assert_expected_revision p expected
    >> gets (λ db. playlist_has_schedule_usage p.id db.blocks)
    >>= λ used.
        raise_if used playlist_in_use
        >> bump_revision (record p { status = PlaylistStatus.archived; archived_at = some now })

unfoldable pub reactivate_playlist : ℕ → ℕ → ℕ → P Playlist
unfolding assert_expected_revision assert_playlist_limit bump_revision
reactivate_playlist company k expected = load_playlist k >>= λ p.
    assert_expected_revision p expected
    >> assert_playlist_limit company
    >> bump_revision (record p { status = PlaylistStatus.draft; archived_at = none })
