-- ===== src/Playlists/Catalog.antt =====
-- apps/catalog/selectors.py: the songs that a company may put in its playlists.
use brandy_manager_back.Prelude.{
  ℕ, Option, none, some, List, Bool, false, ◌&&◌, ◌||◌, ◌==◌, is_none, same_key, exists, select,
}
use brandy_manager_back.Table.{get}
use brandy_manager_back.Models.Playlists.{ContentAccessGrant, is_global, is_private, is_shared}
use brandy_manager_back.Models.Catalog.{
  AudioContent, Song, content_is_song, content_is_ready, song_row, audio_content_row,
}

-- `audio_content_id__in=shared_content_ids`
unfoldable pub is_granted : List ContentAccessGrant → ℕ → ℕ → Bool
is_granted grants company content =
    exists
      (λ g. g.company == company && same_key g.audio_content (some content) && is_none g.revoked_at)
      grants

unfoldable pub is_accessible_content : List ContentAccessGrant → ℕ → AudioContent → Bool
unfolding is_granted
is_accessible_content grants company c =
    (content_is_song c.content_type && content_is_ready c.status && c.is_active)
    && (is_global c.visibility && is_none c.owner_company
        || is_private c.visibility && same_key c.owner_company (some company)
        || is_shared c.visibility && same_key c.owner_company (some company)
        || is_shared c.visibility && is_granted grants company c.id)

-- The content that the song's row refers to, through the join of the query.
unfoldable pub is_accessible_song : List ContentAccessGrant → List AudioContent → ℕ → Song → Bool
unfolding is_accessible_content
is_accessible_song grants contents company s = elim (get s.audio_content contents) [
  | none ↦ false
  | some c ↦ is_accessible_content grants company c
]

unfoldable pub accessible_song_base_queryset :
    List ContentAccessGrant → List AudioContent → List Song → ℕ → List Song
unfolding is_accessible_song
accessible_song_base_queryset grants contents songs company =
    select (is_accessible_song grants contents company) songs

unfoldable pub get_accessible_song_by_id :
    List ContentAccessGrant → List AudioContent → List Song → ℕ → ℕ → Option Song
unfolding accessible_song_base_queryset
get_accessible_song_by_id grants contents songs company k =
    get k (accessible_song_base_queryset grants contents songs company)
