-- ===== src/Channels/CodeLoop.antt =====
-- The loop of `next_available_channel_code` (apps/playlists/services.py) ends: it is the loop of
-- playlists, run on playlists with the codes of the channels.
use Prim.Native.Nat.{◌^◌}
use mathlib.Core.List.{map}
use brandy_manager_back.Prelude.{
  ℕ, zero, suc, ◌≡◌, ◌≤◌, ◌<◌, refl, sym, ap, ◌∙◌, subst, Option, some, List, [], ◌∷◌, false, arith,
  length, length-map, length-take, take,
}
use brandy_manager_back.Text.{or_default, Text, upper, strip}
use brandy_manager_back.Models.Playlists.{Playlist, PlaylistType, PlaylistStatus}
use brandy_manager_back.Models.Channels.{Channel}
use brandy_manager_back.Playlists.Codes.{is_taken, numbered_code, next_code}
use brandy_manager_back.Playlists.CodeLoop.{next_code-ends}
use brandy_manager_back.Channels.Store.{ChannelEnv}
use brandy_manager_back.Channels.Codes.{
  normalize_channel_code, default_channel_code, is_channel_code, next_channel_code,
  next_available_channel_code,
}

-- A playlist with the owner and the code of a channel.
namesake : Channel → Playlist
namesake c = record {
  id = c.id;
  owner_company = c.owner_company;
  name = c.name;
  code = c.code;
  description = c.description;
  playlist_type = PlaylistType.manual;
  visibility = c.visibility;
  status = PlaylistStatus.draft;
  current_version = c.current_version;
  revision = c.revision;
  published_at = c.published_at;
  created_by = c.created_by;
  archived_at = c.archived_at;
}

is_channel_code-namesake :
    (owner : Option ℕ) (channels : List Channel) (code : Text)
    → is_channel_code owner channels code ≡ is_taken owner (map namesake channels) code
unfolding is_channel_code is_taken namesake
is_channel_code-namesake owner [] code = refl
is_channel_code-namesake owner (c ∷ cs) code =
    ground (arith, is_channel_code-namesake owner cs code)

next_channel_code-namesake :
    (fuel : ℕ) (owner : Option ℕ) (channels : List Channel) (base code : Text) (n : ℕ)
    → next_channel_code fuel owner channels base code n
      ≡ next_code fuel owner (map namesake channels) base code n
unfolding next_channel_code next_code
next_channel_code-namesake zero owner channels base code n = refl
next_channel_code-namesake (suc fuel) owner channels base code n = rw (
  is_channel_code-namesake owner channels code,
  next_channel_code-namesake fuel owner channels base (numbered_code base n) (suc n),
)

length-channel_base :
    (env : ChannelEnv) (text : Text)
    → length (or_default (normalize_channel_code env text) default_channel_code) ≤ 120
unfolding normalize_channel_code
length-channel_base env text =
    let code = take 120 (upper (env.slugify (strip text))) in
    ground (arith, length-take 120 (upper (env.slugify (strip text))))

-- The search for a channel's code ends, whatever `slugify` does: in as many rounds as there are
-- channels, and two, it finds a code that no channel of the owner has. With fewer than 10 ^ 118 channels
-- the code has at most 120 characters.
pub next_available_channel_code-ends :
    (env : ChannelEnv) (owner : Option ℕ) (channels : List Channel) (text : Text)
    → length channels < 10 ^ 118
    → (code : Text) × (next_available_channel_code env owner channels text ≡ some code)
      × (is_channel_code owner channels code ≡ false)
      × (length code ≤ 120)
unfolding next_available_channel_code
next_available_channel_code-ends env owner channels text small =
    let base = or_default (normalize_channel_code env text) default_channel_code in
    let n = length-map namesake channels in
    let (code, q, free, short) =
      next_code-ends owner (map namesake channels) base (length-channel_base env text)
        (subst (λ k. k < 10 ^ 118) (sym n) small) in
    (
      code,
      next_channel_code-namesake (suc (suc (length channels))) owner channels base base 2
          ∙ ap (λ k. next_code (suc (suc k)) owner (map namesake channels) base base 2) (sym n)
          ∙ q,
      is_channel_code-namesake owner channels code ∙ free,
      short,
    )
