-- ===== src/Channels/Lifecycle.antt =====
-- Creating, describing, copying, archiving and reactivating a channel (apps/playlists/services.py).
-- The row of the company is only locked.
use brandy_manager_back.Prelude.{
  ℕ, ℤ, suc, or_keep, Option, none, some, List, [], ◌∷◌, ◌++◌, Bool, not, ◌&&◌, ltb, ◌==◌, ◌||◌,
  is_none, is_some, map, exists, select, sort_by,
}
use brandy_manager_back.Table.{get, save, insert}
use brandy_manager_back.Text.{or_default, fits, Text}
use brandy_manager_back.Result.{
  Error, diverged, integrity_error, validation_error, channel_code_conflict, channel_in_use,
}
use brandy_manager_back.Models.Playlists.{Visibility}
use brandy_manager_back.Models.Channels.{
  Channel, ChannelPlaylist, ChannelStatus, OrderMode, Policy, ZoneChannelAssignment, channel_row,
  channel_playlist_row, channel_policy_row,
}
use brandy_manager_back.Playlists.Lifecycle.{copy_suffix, code_suffix}
use brandy_manager_back.Channels.Store.{
  ChannelEnv, C, ◌>>=◌, ◌>>◌, return, gets, or_raise, inspect, modify, raise_if,
}
use brandy_manager_back.Channels.Codes.{
  normalize_channel_code, is_channel_code, next_available_channel_code,
}
use brandy_manager_back.Channels.Rows.{
  load_channel, assert_expected_channel_revision, bump_channel_revision, assert_channel_limit,
  assert_all_available, of_channel, create_relations, on_relations, default_policy,
  get_or_create_policy, insert_policy,
}

-- The columns of a channel that a request fills: `full_clean`, which `save` runs first, checks them.
abbrev pub channel_columns : Channel → Bool
channel_columns c = fits 255 c.name && fits 120 c.code

-- `Channel.objects.create(...)`, and the error that a broken constraint raises
unfoldable pub insert_channel : Channel → Error → C Channel
unfolding is_channel_code
insert_channel c broken =
    raise_if (not (channel_columns c)) (validation_error "columns")
    >> gets
        (λ db. is_some (get c.id db.channels) || is_channel_code c.owner_company db.channels c.code)
    >>= λ used.
        raise_if used broken
        >> modify (λ db. record db { channels = insert c db.channels })
        >> return c

abbrev pub new_channel : ℕ → ℕ → Text → Text → Text → Option ℕ → Channel
new_channel new_id company name code description actor = record {
  id = new_id;
  owner_company = some company;
  name = name;
  code = code;
  description = description;
  visibility = Visibility.private;
  status = ChannelStatus.draft;
  current_version = 0;
  revision = 1;
  created_by = actor;
  published_at = none;
  archived_at = none;
}

unfoldable pub create_channel : ChannelEnv → ℕ → Text → Text → Text → Option ℕ → ℕ → ℕ → C Channel
unfolding assert_channel_limit next_available_channel_code insert_channel insert_policy
create_channel env company name code description actor new_id policy_id =
    assert_channel_limit company
    >> gets
        (λ db. next_available_channel_code env (some company) db.channels (or_default code name))
    >>= λ found. or_raise found diverged >>= λ available.
        insert_channel (new_channel new_id company name available description actor)
          channel_code_conflict
        >>= λ c.
            insert_policy (record { id = policy_id; channel = c.id; policy = default_policy })
              channel_code_conflict
            >> return c

-- The body of an update: a field that is not sent is left as it is.
pub record ChannelPatch : Type 0 where
  pub name : Option Text
  pub code : Option Text
  pub description : Option Text

-- `.exclude(id=channel.id)`
unfoldable pub is_code_of_other : Channel → List Channel → Text → Bool
unfolding is_channel_code
is_code_of_other c channels code =
    is_channel_code c.owner_company (select (λ d. not (d.id == c.id)) channels) code

unfoldable pub new_channel_code : ChannelEnv → Channel → Option Text → C Text
unfolding normalize_channel_code is_code_of_other
new_channel_code env c none = return c.code
new_channel_code env c (some sent) =
    let code = normalize_channel_code env (or_default sent c.name) in
    gets (λ db. is_code_of_other c db.channels code) >>= λ taken.
    raise_if taken channel_code_conflict >> return code

unfoldable pub update_channel_metadata : ChannelEnv → ℕ → ℕ → ChannelPatch → C Channel
unfolding load_channel assert_expected_channel_revision new_channel_code bump_channel_revision
update_channel_metadata env k expected patch = load_channel k >>= λ c.
    assert_expected_channel_revision c expected >> new_channel_code env c patch.code >>= λ code.
    let d = record c {
      name = or_keep patch.name c.name;
      code = code;
      description = or_keep patch.description c.description;
    } in
    raise_if (not (channel_columns d)) (validation_error "columns") >> bump_channel_revision d

pub record PolicyPatch : Type 0 where
  pub order_mode : Option OrderMode
  pub repeat_song_gap_count : Option ℕ
  pub max_same_genre_in_row : Option ℕ
  pub avoid_same_tag_in_row : Option Bool
  pub crossfade_ms : Option ℕ
  pub fade_in_ms : Option ℕ
  pub fade_out_ms : Option ℕ
  pub normalize_loudness : Option Bool
  pub target_lufs : Option (Option ℤ)
  pub settings : Option Text

abbrev pub patched_policy : PolicyPatch → Policy → Policy
patched_policy q p = record {
  order_mode = or_keep q.order_mode p.order_mode;
  repeat_song_gap_count = or_keep q.repeat_song_gap_count p.repeat_song_gap_count;
  max_same_genre_in_row = or_keep q.max_same_genre_in_row p.max_same_genre_in_row;
  avoid_same_tag_in_row = or_keep q.avoid_same_tag_in_row p.avoid_same_tag_in_row;
  crossfade_ms = or_keep q.crossfade_ms p.crossfade_ms;
  fade_in_ms = or_keep q.fade_in_ms p.fade_in_ms;
  fade_out_ms = or_keep q.fade_out_ms p.fade_out_ms;
  normalize_loudness = or_keep q.normalize_loudness p.normalize_loudness;
  target_lufs = or_keep q.target_lufs p.target_lufs;
  settings = or_keep q.settings p.settings;
}

unfoldable pub update_channel_policy : ChannelEnv → ℕ → ℕ → PolicyPatch → ℕ → C Channel
unfolding load_channel assert_expected_channel_revision get_or_create_policy bump_channel_revision
update_channel_policy env k expected patch policy_id = load_channel k >>= λ c.
    assert_expected_channel_revision c expected >> get_or_create_policy c.id policy_id >>= λ p.
    let policy = patched_policy patch p.policy in
    raise_if (not (env.policy_fields policy)) (validation_error "columns")
    >> modify (λ db. record db { policies = save (record p { policy = policy }) db.policies })
    >> bump_channel_revision c

-- `order_by("created_at", "id")`
abbrev pub older_relation : ChannelPlaylist → ChannelPlaylist → Bool
older_relation a b = ltb a.created_at b.created_at || a.created_at == b.created_at && ltb a.id b.id

-- The rows of the copy: `fresh n` is the key of its n-th row.
unfoldable pub copied_relations : ℕ → (ℕ → ℕ) → ℕ → ℕ → List ChannelPlaylist → List ChannelPlaylist
copied_relations copy fresh n now [] = []
copied_relations copy fresh n now (r ∷ rs) =
    record r { id = fresh n; channel = copy; created_at = now }
    ∷ copied_relations copy fresh (suc n) now rs

-- The loop checks a playlist and creates its row; no check reads a row that the loop creates.
unfoldable pub duplicate_channel :
    ChannelEnv → ℕ → ℕ → Option ℕ → Text → Text → ℕ → ℕ → ℕ → (ℕ → ℕ) → ℕ → C Channel
unfolding load_channel assert_channel_limit next_available_channel_code insert_channel
    get_or_create_policy insert_policy assert_all_available copied_relations create_relations
    sort_by
duplicate_channel env company k actor name code new_id source_policy copy_policy fresh now =
    load_channel k >>= λ source.
    assert_channel_limit company
    >> gets (λ db.
      next_available_channel_code env (some company) db.channels
        (or_default code (source.code ++ code_suffix)))
    >>= λ found. or_raise found diverged >>= λ available.
        insert_channel
          (new_channel new_id company (or_default name (source.name ++ copy_suffix)) available
            source.description actor)
          integrity_error
        >>= λ copy. get_or_create_policy source.id source_policy >>= λ p.
            insert_policy (record { id = copy_policy; channel = copy.id; policy = p.policy })
              integrity_error
            >> gets (λ db. sort_by older_relation (select (of_channel source.id) db.relations))
            >>= λ rows.
                inspect (assert_all_available company (map (λ r. r.playlist) rows))
                >> on_relations (create_relations (copied_relations copy.id fresh 0 now rows))
                >> return copy

-- An assignment of the channel that is not closed.
abbrev pub is_open_on : ℕ → ZoneChannelAssignment → Bool
is_open_on channel a = a.channel == channel && is_none a.unassigned_at

unfoldable pub archive_channel : ℕ → ℕ → ℕ → C Channel
unfolding load_channel assert_expected_channel_revision bump_channel_revision
archive_channel k expected now = load_channel k >>= λ c.
    assert_expected_channel_revision c expected
    >> gets (λ db. exists (is_open_on c.id) db.assignments)
    >>= λ used.
        raise_if used channel_in_use
        >> bump_channel_revision
            (record c { status = ChannelStatus.archived; archived_at = some now })

unfoldable pub reactivate_channel : ℕ → ℕ → ℕ → C Channel
unfolding load_channel assert_expected_channel_revision assert_channel_limit bump_channel_revision
reactivate_channel company k expected = load_channel k >>= λ c.
    assert_expected_channel_revision c expected
    >> assert_channel_limit company
    >> bump_channel_revision (record c { status = ChannelStatus.draft; archived_at = none })
