-- ===== src/Channels/Tests/Contents.antt =====
-- The playlists of the sample's channel, its code, and what its zone plays.
use mathlib.Core.List.{map}
use brandy_manager_back.Prelude.{
  sort_by, ◌+◌, ◌≡◌, ◌≤◌, ◌↔◌, refl, pos, none, some, List, [], ◌∷◌, true, false, arith, length,
}
use brandy_manager_back.Result.{Result, ok, err}
use brandy_manager_back.Text.{Text}
use brandy_manager_back.Models.Channels.{Channel, ZonePayload}
use brandy_manager_back.Channels.Store.{ChannelDb}
use brandy_manager_back.Channels.Codes.{next_available_channel_code, is_channel_code}
use brandy_manager_back.Channels.CodeLoop.{next_available_channel_code-ends}
use brandy_manager_back.Channels.Contents.{ChannelItem, replace_channel_playlists}
use brandy_manager_back.Channels.Replaced.{item_of, rows_of, rows_of_others, replace-items}
use brandy_manager_back.Playback.Payload.{is_included, zone_operational_snapshot_payload}
use brandy_manager_back.Playback.Growth.{IsDistinct}
use brandy_manager_back.Playback.Contents.{IsNamed, payload-exact}
use brandy_manager_back.Channels.Tests.Sample.{env, db, zone, channel, channel_snapshot}

abbrev items : List ChannelItem
items =
    record {
      playlist_id = 1;
      weight = 5;
      priority = pos 2;
      active_from = none;
      active_until = some 9;
    }
    ∷ []

abbrev replaced : Result (Channel × ChannelDb)
replaced = replace_channel_playlists 1 2 items 4 (λ n. n + 30) 50 db

abbrev channel_after : Result (Channel × ChannelDb) → Channel
channel_after (ok p) = p.0
channel_after (err e) = channel

abbrev db_after : Result (Channel × ChannelDb) → ChannelDb
db_after (ok p) = p.1
db_after (err e) = db

accepted : replaced ≡ ok (channel_after replaced, db_after replaced)
unfolding replace_channel_playlists sort_by
accepted = refl

replace-items_example :
    (map item_of (rows_of 2 (db_after replaced).relations) ≡ items)
    × (rows_of_others 2 (db_after replaced).relations ≡ rows_of_others 2 db.relations)
replace-items_example = replace-items 1 2 items 4 (λ n. n + 30) 50 db accepted

-- The sample's channel holds the code `C`.
next_available_channel_code-ends_example :
    (code : Text) × (next_available_channel_code env (some 1) db.channels (67 ∷ []) ≡ some code)
    × (is_channel_code (some 1) db.channels code ≡ false)
    × (length code ≤ 120)
next_available_channel_code-ends_example =
    next_available_channel_code-ends env (some 1) db.channels (67 ∷ []) (omega arith)

abbrev payload : ZonePayload
payload = zone_operational_snapshot_payload db zone none (some channel_snapshot) none 50

payload-exact_example :
    IsDistinct payload.playlist_snapshots
    × ((is_included 3 payload.playlist_snapshots ≡ true)
        ↔ IsNamed db (some channel_snapshot) none 3)
payload-exact_example = payload-exact db zone none (some channel_snapshot) none 50 3
