-- ===== src/Channels/Hashing.antt =====
-- What a channel's checksum is made of (apps/playlists/services.py): its playlists in order, and its
-- policy.
use mathlib.Core.Option
use brandy_manager_back.Prelude.{
  ℕ, none, some, List, [], Bool, ◌&&◌, ◌||◌, ltb, ltb_ℤ, eqb_ℤ, select, sort_by, map,
}
use brandy_manager_back.Table.{get}
use brandy_manager_back.Text.{Text, text_eq}
use brandy_manager_back.Models.Playlists.{playlist_row}
use brandy_manager_back.Models.Channels.{
  Channel, ChannelPlaylist, Policy, channel_snapshot_row, channel_snapshot_playlist_row,
}
use brandy_manager_back.Scheduling.Selectors.{get_latest_published_snapshot}
use brandy_manager_back.Channels.Payload.{PlaylistEntry, ChannelPayload}
use brandy_manager_back.Channels.Store.{ChannelDb, ChannelEnv}
use brandy_manager_back.Channels.Rows.{of_channel}

unfoldable pub playlist_name : ChannelDb → ℕ → Text
playlist_name db k = elim (get k db.store.playlists) [ none ↦ [] | some p ↦ p.name ]

-- `order_by("-priority", "playlist__name", "id")`
unfoldable pub relation_before : ChannelEnv → ChannelDb → ChannelPlaylist → ChannelPlaylist → Bool
unfolding playlist_name text_eq
relation_before env db a b =
    let name = playlist_name db a.playlist in
    let other = playlist_name db b.playlist in
    ltb_ℤ b.priority a.priority
    || eqb_ℤ a.priority b.priority
      && (env.name_before name other || text_eq name other && ltb a.id b.id)

unfoldable pub ordered_relations : ChannelEnv → ChannelDb → ℕ → List ChannelPlaylist
unfolding relation_before sort_by
ordered_relations env db channel =
    sort_by (relation_before env db) (select (of_channel channel) db.relations)

abbrev pub playlist_entry : ChannelDb → ChannelPlaylist → PlaylistEntry
playlist_entry db r =
    let snapshot = get_latest_published_snapshot db.store r.playlist in
    record {
      playlist = r.playlist;
      playlist_snapshot = Option.map (λ s. s.id) snapshot;
      version = Option.map (λ s. s.version) snapshot;
      weight = r.weight;
      priority = r.priority;
      active_from = r.active_from;
      active_until = r.active_until;
    }

unfoldable pub channel_snapshot_payload : ChannelEnv → ChannelDb → Channel → Policy → ChannelPayload
unfolding ordered_relations get_latest_published_snapshot
channel_snapshot_payload env db c policy = record {
  channel = c.id;
  name = c.name;
  code = c.code;
  policy = policy;
  playlists = map (playlist_entry db) (ordered_relations env db c.id);
}
