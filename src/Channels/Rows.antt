-- ===== src/Channels/Rows.antt =====
-- What the channel services (apps/playlists/services.py) share: a channel's row, its playlists and its
-- policy. A row of a channel is locked while a request runs.
use brandy_manager_back.Prelude.{
  ℕ, ◌+◌, Option, none, some, List, [], ◌∷◌, Bool, true, not, ◌&&◌, ◌||◌, ◌==◌, is_none, is_some,
  if◌then◌else◌, exists, select, first, length, same_key,
}
use brandy_manager_back.Table.{get, save, insert}
use brandy_manager_back.Result.{
  Error, Result, ok, err, does_not_exist, integrity_error, channel_revision_conflict,
  channel_limit_reached, channel_playlist_invalid,
}
use brandy_manager_back.Billing.{reaches, LimitKey, company_limit}
use brandy_manager_back.Models.Playlists.{Playlist, playlist_is_published, playlist_row}
use brandy_manager_back.Models.Channels.{
  Channel, ChannelPlaylist, OrderMode, Policy, ChannelPolicy, channel_is_archived, channel_row,
  channel_playlist_row, channel_policy_row,
}
use brandy_manager_back.Scheduling.Selectors.{
  get_accessible_playlist_by_id, get_latest_published_snapshot,
}
use brandy_manager_back.Channels.Store.{
  ChannelDb, C, ◌>>=◌, ◌>>◌, return, gets, or_raise, modify, raise_if,
}

-- `Channel.objects.select_for_update().get(id=channel.id)`
unfoldable pub load_channel : ℕ → C Channel
load_channel k = gets (λ db. get k db.channels) >>= λ found. or_raise found does_not_exist

unfoldable pub assert_expected_channel_revision : Channel → ℕ → C (Unit {0})
assert_expected_channel_revision c expected =
    raise_if (not (c.revision == expected)) channel_revision_conflict

-- The channel is the row as loaded, with the columns of `update_fields` set anew.
unfoldable pub bump_channel_revision : Channel → C Channel
bump_channel_revision channel =
    let c = record channel { revision = channel.revision + 1 } in
    modify (λ db. record db { channels = save c db.channels }) >> return c

unfoldable pub count_billable_channels : ℕ → List Channel → ℕ
count_billable_channels company channels = length (
    select (λ c. same_key c.owner_company (some company) && not (channel_is_archived c.status))
      channels)

unfoldable pub assert_channel_limit : ℕ → C (Unit {0})
unfolding count_billable_channels company_limit
assert_channel_limit company =
    gets (λ db.
      reaches (count_billable_channels company db.channels)
        (company_limit LimitKey.channels db.plans db.subscriptions company))
    >>= λ full. raise_if full channel_limit_reached

abbrev pub channel_playlist_available : ChannelDb → Option Playlist → Result Playlist
channel_playlist_available db none = err channel_playlist_invalid
channel_playlist_available db (some p) =
    if not (playlist_is_published p.status) || is_none (get_latest_published_snapshot db.store p.id)
    then err channel_playlist_invalid
    else ok p

unfoldable pub assert_playlist_channel_available : ℕ → ℕ → ChannelDb → Result Playlist
unfolding get_accessible_playlist_by_id get_latest_published_snapshot
assert_playlist_channel_available company k db =
    channel_playlist_available db (get_accessible_playlist_by_id db.store company (some k))

-- The check, in a loop over playlists.
unfoldable pub assert_all_available : ℕ → List ℕ → ChannelDb → Result (Unit {0})
unfolding assert_playlist_channel_available
assert_all_available company [] db = ok tt
assert_all_available company (k ∷ ks) db = elim (assert_playlist_channel_available company k db) [
  | err e ↦ err e
  | ok p ↦ assert_all_available company ks db
]

abbrev pub of_channel : ℕ → ChannelPlaylist → Bool
of_channel channel r = r.channel == channel

-- `ChannelPlaylist.objects.create(...)`, with its constraint `uniq_channel_playlist`
unfoldable pub create_relation :
    ChannelPlaylist → List ChannelPlaylist → Result (List ChannelPlaylist)
create_relation r rows =
    if is_some (get r.id rows)
      || exists (λ q. of_channel r.channel q && q.playlist == r.playlist) rows
    then err integrity_error
    else ok (insert r rows)

unfoldable pub create_relations :
    List ChannelPlaylist → List ChannelPlaylist → Result (List ChannelPlaylist)
unfolding create_relation
create_relations [] rows = ok rows
create_relations (r ∷ rs) rows = elim (create_relation r rows) [
  | err e ↦ err e
  | ok rows' ↦ create_relations rs rows'
]

abbrev pub on_relations : (List ChannelPlaylist → Result (List ChannelPlaylist)) → C (Unit {0})
on_relations f db = elim (f db.relations) [
  | err e ↦ err e
  | ok rows ↦ ok (tt, record db { relations = rows })
]

-- the defaults of `ChannelPolicy`
abbrev pub default_policy : Policy
default_policy = record {
  order_mode = OrderMode.shuffle;
  repeat_song_gap_count = 10;
  max_same_genre_in_row = 3;
  avoid_same_tag_in_row = true;
  crossfade_ms = 0;
  fade_in_ms = 0;
  fade_out_ms = 0;
  normalize_loudness = true;
  target_lufs = none;
  settings = 123 ∷ 125 ∷ [];
}

abbrev pub policy_of : ℕ → List ChannelPolicy → Option ChannelPolicy
policy_of channel policies = first (select (λ p. p.channel == channel) policies)

-- `ChannelPolicy.objects.create(...)`, and the error that a broken constraint raises: a channel has one
-- policy.
unfoldable pub insert_policy : ChannelPolicy → Error → C (Unit {0})
insert_policy p error =
    gets (λ db. is_some (get p.id db.policies) || is_some (policy_of p.channel db.policies))
    >>= λ broken.
        raise_if broken error >> modify (λ db. record db { policies = insert p db.policies })

abbrev pub policy_or_create : ℕ → ℕ → Option ChannelPolicy → C ChannelPolicy
policy_or_create channel new_id (some p) = return p
policy_or_create channel new_id none =
    let p : ChannelPolicy = record { id = new_id; channel = channel; policy = default_policy } in
    insert_policy p integrity_error >> return p

-- `ChannelPolicy.objects.get_or_create(channel=channel)`
unfoldable pub get_or_create_policy : ℕ → ℕ → C ChannelPolicy
unfolding insert_policy
get_or_create_policy channel new_id =
    gets (λ db. policy_of channel db.policies) >>= policy_or_create channel new_id
