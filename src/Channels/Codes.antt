-- ===== src/Channels/Codes.antt =====
-- Codes of channels (apps/playlists/services.py): as those of playlists, with a default of their own.
use brandy_manager_back.Prelude.{
  ℕ, zero, suc, Option, none, some, List, [], ◌∷◌, Bool, if◌then◌else◌, ◌&&◌, exists, take, length,
  same_key,
}
use brandy_manager_back.Text.{or_default, Text, upper, strip, text_eq}
use brandy_manager_back.Models.Channels.{Channel}
use brandy_manager_back.Playlists.Codes.{numbered_code}
use brandy_manager_back.Channels.Store.{ChannelEnv}

unfoldable pub normalize_channel_code : ChannelEnv → Text → Text
unfolding upper strip
normalize_channel_code env value = take 120 (upper (env.slugify (strip value)))

-- `"CHANNEL"`
abbrev pub default_channel_code : Text
default_channel_code = 67 ∷ 72 ∷ 65 ∷ 78 ∷ 78 ∷ 69 ∷ 76 ∷ []

-- `Channel.objects.filter(owner_company=owner, code=code).exists()`
unfoldable pub is_channel_code : Option ℕ → List Channel → Text → Bool
unfolding text_eq
is_channel_code owner channels code =
    exists (λ c. same_key c.owner_company owner && text_eq c.code code) channels

unfoldable pub next_channel_code : ℕ → Option ℕ → List Channel → Text → Text → ℕ → Option Text
unfolding is_channel_code numbered_code
next_channel_code zero owner channels base code suffix = none
next_channel_code (suc fuel) owner channels base code suffix =
    let rest =
      next_channel_code fuel owner channels base (numbered_code base suffix) (suc suffix) in
    if is_channel_code owner channels code then rest else some code

-- As many rounds as channels, and two, are enough.
unfoldable pub next_available_channel_code :
    ChannelEnv → Option ℕ → List Channel → Text → Option Text
unfolding next_channel_code normalize_channel_code
next_available_channel_code env owner channels base_code =
    let base = or_default (normalize_channel_code env base_code) default_channel_code in
    next_channel_code (suc (suc (length channels))) owner channels base base 2
