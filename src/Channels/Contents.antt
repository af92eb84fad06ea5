-- ===== src/Channels/Contents.antt =====
-- The playlists of a channel (apps/playlists/services.py, `replace_channel_playlists`).
use brandy_manager_back.Prelude.{ℕ, ℤ, suc, Option, List, [], ◌∷◌, not, select, map}
use brandy_manager_back.Result.{channel_playlist_invalid}
use brandy_manager_back.Models.Channels.{Channel, ChannelPlaylist}
use brandy_manager_back.Playlists.Requests.{has_duplicates}
use brandy_manager_back.Channels.Store.{C, ◌>>=◌, ◌>>◌, inspect, modify, raise_if}
use brandy_manager_back.Channels.Rows.{
  load_channel, assert_expected_channel_revision, bump_channel_revision, assert_all_available,
  of_channel, create_relations, on_relations,
}

-- An item of the request, its defaults filled in.
pub record ChannelItem : Type 0 where
  pub playlist_id : ℕ
  pub weight : ℕ
  pub priority : ℤ
  pub active_from : Option ℕ
  pub active_until : Option ℕ

unfoldable pub resolved_relations : ℕ → (ℕ → ℕ) → ℕ → ℕ → List ChannelItem → List ChannelPlaylist
resolved_relations channel fresh n now [] = []
resolved_relations channel fresh n now (i ∷ is) =
    record {
      id = fresh n;
      channel = channel;
      playlist = i.playlist_id;
      weight = i.weight;
      priority = i.priority;
      active_from = i.active_from;
      active_until = i.active_until;
      created_at = now;
    }
    ∷ resolved_relations channel fresh (suc n) now is

unfoldable pub replace_channel_playlists : ℕ → ℕ → List ChannelItem → ℕ → (ℕ → ℕ) → ℕ → C Channel
unfolding load_channel assert_expected_channel_revision has_duplicates assert_all_available
    resolved_relations create_relations bump_channel_revision
replace_channel_playlists company k items expected fresh now = load_channel k >>= λ c.
    let ids = map (λ i. i.playlist_id) items in
    assert_expected_channel_revision c expected
    >> raise_if (has_duplicates ids) channel_playlist_invalid
    >> inspect (assert_all_available company ids)
    >> modify (λ db. record db { relations = select (λ r. not (of_channel c.id r)) db.relations })
    >> on_relations (create_relations (resolved_relations c.id fresh 0 now items))
    >> bump_channel_revision c
