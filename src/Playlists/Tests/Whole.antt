-- ===== src/Playlists/Tests/Whole.antt =====
-- The playlist as a whole: its code, its snapshot, and one more playlist.
use brandy_manager_back.Prelude.{
  true, ℕ, ◌+◌, ◌≡◌, ◌≤◌, refl, none, some, [], ◌∷◌, false, arith, length, insert_by, sort_by,
}
use brandy_manager_back.Text.{
  fits, Text, text_eq, upper, upper_char, strip, lstrip, rstrip, is_space, decimal, digits,
}
use brandy_manager_back.Result.{ok}
use brandy_manager_back.Billing.{
  reaches, LimitKey, company_limit, effective_limits, get_current_subscription_for_company,
  get_limit, has_limit, normalize_limits,
}
use brandy_manager_back.Models.Playlists.{Playlist, PlaylistSnapshot, PlaylistStatus}
use brandy_manager_back.Playlists.Store.{PlaylistDb}
use brandy_manager_back.Playlists.Catalog.{
  is_granted, is_accessible_content, is_accessible_song, accessible_song_base_queryset,
  get_accessible_song_by_id,
}
use brandy_manager_back.Playlists.Codes.{
  normalize_playlist_code, numbered_code, next_code, next_available_code, is_taken,
}
use brandy_manager_back.Playlists.CodeLoop.{next_available_code-ends}
use brandy_manager_back.Playlists.Items.{ordered_items, bump_revision}
use brandy_manager_back.Playlists.Lifecycle.{count_billable_playlists, create_playlist}
use brandy_manager_back.Playlists.Limits.{create_playlist-succeeds}
use brandy_manager_back.Playlists.Publishing.{
  checksum_entry, join_entries, checksum_entries, checksum_source, playlist_checksum,
  has_unavailable, new_snapshot, assert_all_playlist_songs_available, create_snapshot_items,
  insert_snapshot, publish_new, publish_loaded, publish_playlist, snapshot_item,
}
use brandy_manager_back.Playlists.Republishing.{publish_playlist-idempotent}
use brandy_manager_back.Playlists.Tests.Sample.{env, playlist, opening_item, closing_item, db}

next_available_code-ends_example :
    (code : Text) × (next_available_code env (some 1) (playlist ∷ []) (97 ∷ []) ≡ some code)
    × (is_taken (some 1) (playlist ∷ []) code ≡ false)
    × (length code ≤ 120)
next_available_code-ends_example =
    next_available_code-ends env (some 1) (playlist ∷ []) (97 ∷ []) (ground arith)

-- The playlist has the code `A`, so the next is `A-2`.
next_code_run :
    next_available_code env (some 1) (playlist ∷ []) (97 ∷ []) ≡ some (65 ∷ 45 ∷ 50 ∷ [])
unfolding next_available_code next_code numbered_code is_taken text_eq normalize_playlist_code upper
    upper_char strip lstrip rstrip is_space decimal digits
next_code_run = refl

below_limit :
    reaches
      (count_billable_playlists 1 db.playlists)
      (company_limit LimitKey.playlists db.plans db.subscriptions 1)
    ≡ false
unfolding count_billable_playlists company_limit effective_limits get_limit has_limit
    normalize_limits get_current_subscription_for_company sort_by insert_by
below_limit = refl

create_playlist-succeeds_example :
    (p : Playlist) × (db' : PlaylistDb) × (create_playlist env 1 (97 ∷ []) [] [] none 2 db
      ≡ ok (p, db'))
    × (is_taken (some 1) db.playlists p.code ≡ false)
    × (p.name ≡ 97 ∷ [])
    × (fits 120 p.code ≡ true)
    × ((limit : ℕ)
        → company_limit LimitKey.playlists db.plans db.subscriptions 1 ≡ some limit
        → count_billable_playlists 1 db'.playlists ≤ limit)
create_playlist-succeeds_example =
    create_playlist-succeeds env 1 (97 ∷ []) [] [] none 2 db below_limit refl refl (ground arith)

abbrev snapshot : PlaylistSnapshot
snapshot = new_snapshot playlist (length (checksum_source env db.items)) none 7 50

abbrev published : PlaylistDb
published = record db {
  snapshots = snapshot ∷ [];
  snapshot_items = snapshot_item 20 7 opening_item ∷ snapshot_item 21 7 closing_item ∷ [];
  playlists =
      record playlist {
        current_version = 1;
        status = PlaylistStatus.published;
        published_at = some 50;
        revision = 2;
      }
      ∷ [];
}

publish_run :
    publish_playlist env 1 (some 1) none (some 1) 7 (λ n. 20 + n) 50 db ≡ ok (snapshot, published)
unfolding publish_playlist publish_loaded publish_new insert_snapshot create_snapshot_items
    assert_all_playlist_songs_available has_unavailable get_accessible_song_by_id
    accessible_song_base_queryset is_accessible_song is_accessible_content is_granted
    playlist_checksum checksum_source checksum_entries checksum_entry join_entries ordered_items
    bump_revision sort_by insert_by decimal digits
publish_run = refl

publish_playlist-idempotent_example :
    publish_playlist env 1 (some 1) (some 9) (some 1) 8 (λ n. 30 + n) 60 published
    ≡ ok (snapshot, published)
publish_playlist-idempotent_example =
    publish_playlist-idempotent env 1 (some 1) none (some 1) 7 (λ n. 20 + n) 50 db playlist
      publish_run refl refl (λ t m. elim m [ ]) (some 9) (some 1) 8 (λ n. 30 + n) 60
