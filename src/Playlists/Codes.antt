-- ===== src/Playlists/Codes.antt =====
-- Codes of playlists (apps/playlists/services.py): normalized text, made unused by a numbered tail.
use brandy_manager_back.Prelude.{
  ℕ, zero, suc, ◌-◌, Option, none, some, List, [], ◌∷◌, ◌++◌, Bool, if◌then◌else◌, ◌&&◌, exists,
  take, length, same_key,
}
use brandy_manager_back.Text.{or_default, Text, upper, strip, text_eq, decimal}
use brandy_manager_back.Models.Playlists.{Playlist}
use brandy_manager_back.Playlists.Store.{PlaylistEnv}

unfoldable pub normalize_playlist_code : PlaylistEnv → Text → Text
unfolding upper strip
normalize_playlist_code env value = take 120 (upper (env.slugify (strip value)))

-- `"PLAYLIST"`
abbrev pub default_code : Text
default_code = 80 ∷ 76 ∷ 65 ∷ 89 ∷ 76 ∷ 73 ∷ 83 ∷ 84 ∷ []

unfoldable pub code_from_name : PlaylistEnv → Text → Text
unfolding normalize_playlist_code
code_from_name env name = or_default (normalize_playlist_code env name) default_code

-- `Playlist.objects.filter(owner_company=owner, code=code).exists()`
unfoldable pub is_taken : Option ℕ → List Playlist → Text → Bool
unfolding text_eq
is_taken owner playlists code =
    exists (λ p. same_key p.owner_company owner && text_eq p.code code) playlists

-- `tail` is a dash and the number in decimal.
unfoldable pub numbered_code : Text → ℕ → Text
unfolding decimal
numbered_code base suffix = let tail = 45 ∷ decimal suffix in take (120 - length tail) base ++ tail

-- The loop with its state: the code to try, and the number of the next. It returns nothing when the
-- fuel runs out.
unfoldable pub next_code : ℕ → Option ℕ → List Playlist → Text → Text → ℕ → Option Text
unfolding is_taken numbered_code
next_code zero owner playlists base code suffix = none
next_code (suc fuel) owner playlists base code suffix =
    let rest = next_code fuel owner playlists base (numbered_code base suffix) (suc suffix) in
    if is_taken owner playlists code then rest else some code

-- The numbered codes differ, so as many rounds as playlists, and two, are enough: a long base that ends
-- as a numbered code does may be tried twice.
unfoldable pub next_available_code : PlaylistEnv → Option ℕ → List Playlist → Text → Option Text
unfolding next_code normalize_playlist_code
next_available_code env owner playlists base_code =
    let base = or_default (normalize_playlist_code env base_code) default_code in
    next_code (suc (suc (length playlists))) owner playlists base base 2
