-- ===== src/Playlists/Tests/Sample.antt =====
-- A company with one playlist of two songs.
use brandy_manager_back.Prelude.{
  ◌≡◌, sym, ap, ◌∙◌, none, some, [], ◌∷◌, true, arith, Memᴰ, ◌⊎◌, inl, inr, length, mem-singleton,
}
use brandy_manager_back.Text.{decimal}
use brandy_manager_back.Billing.{Plan, Subscription, SubscriptionStatus, LimitKey}
use brandy_manager_back.Models.Playlists.{
  Playlist, PlaylistItem, PlaylistType, PlaylistStatus, Visibility,
}
use brandy_manager_back.Models.Catalog.{AudioContent, ContentType, ContentStatus}
use brandy_manager_back.Playlists.Store.{PlaylistDb, PlaylistEnv}
use brandy_manager_back.Playlists.Items.{new_item}
use brandy_manager_back.Playlists.Steps.{IsWellNumbered}

abbrev pub env : PlaylistEnv
env = record { slugify = λ text. text; uuid = λ k. decimal k; sha256 = λ text. length text }

abbrev pub playlist : Playlist
playlist = record {
  id = 1;
  owner_company = some 1;
  name = 65 ∷ [];
  code = 65 ∷ [];
  description = [];
  playlist_type = PlaylistType.manual;
  visibility = Visibility.private;
  status = PlaylistStatus.draft;
  current_version = 0;
  revision = 1;
  published_at = none;
  created_by = none;
  archived_at = none;
}

abbrev pub content : AudioContent
content = record {
  id = 6;
  owner_company = none;
  content_type = ContentType.song;
  visibility = Visibility.global;
  status = ContentStatus.ready;
  is_active = true;
}

abbrev pub opening_item : PlaylistItem
opening_item = new_item 1 5 1 1 none 10

abbrev pub closing_item : PlaylistItem
closing_item = new_item 1 5 2 3 none 11

abbrev pub plan : Plan
plan = record { id = 1; limits = (LimitKey.playlists, some 2) ∷ [] }

abbrev pub subscription : Subscription
subscription = record {
  id = 1;
  company = 1;
  plan = some 1;
  status = SubscriptionStatus.active;
  started_at = 0;
  created_at = 0;
  trial_ends_at = none;
  snapshot_limits = [];
  snapshot_feature_limits = [];
}

abbrev pub db : PlaylistDb
db = record {
  plans = plan ∷ [];
  subscriptions = subscription ∷ [];
  contents = content ∷ [];
  songs = record { id = 5; audio_content = 6 } ∷ [];
  grants = [];
  playlists = playlist ∷ [];
  items = opening_item ∷ closing_item ∷ [];
  snapshots = [];
  snapshot_items = [];
  blocks = [];
}

two_items :
    {z : PlaylistItem}
    → Memᴰ z (opening_item ∷ closing_item ∷ [])
    → (z ≡ opening_item) ⊎ (z ≡ closing_item)
two_items (Memᴰ.head q) = inl q
two_items (Memᴰ.tail t) = inr (mem-singleton t)

pub db-IsWellNumbered : IsWellNumbered db
db-IsWellNumbered = record {
  numbered = record {
    constrained = record {
      keys = λ a b ma mb e. elim (two_items ma) [
        | inl p ↦ elim (two_items mb) [
          | inl q ↦ p ∙ sym q
          | inr q ↦ absurd (ground (arith, ap (λ w. w.id) p, ap (λ w. w.id) q, e))
        ]
        | inr p ↦ elim (two_items mb) [
          | inl q ↦ absurd (ground (arith, ap (λ w. w.id) p, ap (λ w. w.id) q, e))
          | inr q ↦ p ∙ sym q
        ]
      ];
      positions = λ a b ma mb f e. elim (two_items ma) [
        | inl p ↦ elim (two_items mb) [
          | inl q ↦ p ∙ sym q
          | inr q ↦ absurd (ground (arith, ap (λ w. w.position) p, ap (λ w. w.position) q, e))
        ]
        | inr p ↦ elim (two_items mb) [
          | inl q ↦ absurd (ground (arith, ap (λ w. w.position) p, ap (λ w. w.position) q, e))
          | inr q ↦ p ∙ sym q
        ]
      ];
    };
    range = λ p z m e. elim (two_items m) [
      | inl q ↦ (
        ground (arith, ap (λ w. w.position) q),
        ground (arith, ap (λ w. w.position) q, ap (λ w. w.playlist) q, e),
      )
      | inr q ↦ (
        ground (arith, ap (λ w. w.position) q),
        ground (arith, ap (λ w. w.position) q, ap (λ w. w.playlist) q, e),
      )
    ];
  };
  owned = λ z m. elim (two_items m) [
    | inl q ↦ ground (arith, ap (λ w. w.playlist) q)
    | inr q ↦ ground (arith, ap (λ w. w.playlist) q)
  ];
}
