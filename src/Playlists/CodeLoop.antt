-- ===== src/Playlists/CodeLoop.antt =====
-- The loop of `next_available_code` (apps/playlists/services.py) ends, with a code that nobody has.
use Prim.Native.Nat.{◌^◌}
use brandy_manager_back.Prelude.{
  ℕ, zero, suc, ◌+◌, ◌≤◌, ◌<◌, ◌≡◌, ◌≢◌, refl, sym, ◌∙◌, subst, Option, some, List, [], ◌∷◌, Bool,
  true, false, not, ◌&&◌, arith, exists-mem, mem-exists, select-mem, select, length, length-take,
  length-select, take, same_key, ◌++◌, ◌-◌, Bool-cases, inl, inr,
}
use brandy_manager_back.Text.{or_default, Text, fits, decimal, text_eq, upper, strip}
use brandy_manager_back.Models.Playlists.{Playlist}
use brandy_manager_back.Playlists.Store.{PlaylistEnv}
use brandy_manager_back.Playlists.Codes.{
  normalize_playlist_code, default_code, is_taken, numbered_code, next_code, next_available_code,
}
use brandy_manager_back.Playlists.Decimal.{
  numbered_code-injective, length-numbered_code, text_eq→eq,
}

-- The playlists with another code.
abbrev without_code : Text → List Playlist → List Playlist
without_code code xs = select (λ p. not (text_eq p.code code)) xs

-- Setting a code's playlists aside leaves fewer, and other codes as taken as before.
length-without_code :
    (owner : Option ℕ) (code : Text) (xs : List Playlist)
    → is_taken owner xs code ≡ true
    → length (without_code code xs) < length xs
unfolding is_taken
length-without_code owner code [] h = absurd (ground arith)
length-without_code owner code (x ∷ xs) h = elim (Bool-cases (text_eq x.code code)) [
  | inl e ↦ ground (arith, e, length-select (λ p. not (text_eq p.code code)) xs)
  | inr e ↦ ground (arith, e, length-without_code owner code xs (ground (arith, e)))
]

without_code-is_taken :
    (owner : Option ℕ) (code other : Text) (xs : List Playlist)
    → is_taken owner xs other ≡ true
    → code ≢ other
    → is_taken owner (without_code code xs) other ≡ true
unfolding is_taken
without_code-is_taken owner code other xs h d =
    let holds : Playlist → Bool = λ p. same_key p.owner_company owner && text_eq p.code other in
    let (p, m, e) = exists-mem holds xs h in
    mem-exists holds (without_code code xs)
      (select-mem (λ q. not (text_eq q.code code)) xs m
        (elim (Bool-cases (text_eq p.code code)) [
          | inl f ↦
              absurd
                (d (sym (text_eq→eq p.code code f) ∙ text_eq→eq p.code other (ground (arith, e))))
          | inr f ↦ ground (arith, f)
        ]))
      e

-- From a numbered code on, more rounds than playlists in the way are enough.
numbered-ends :
    (fuel : ℕ) (owner : Option ℕ) (playlists xs : List Playlist) (base : Text) (n : ℕ)
    → length xs < fuel
    → ((m : ℕ)
        → n ≤ m
        → is_taken owner playlists (numbered_code base m) ≡ true
        → is_taken owner xs (numbered_code base m) ≡ true)
    → (code : Text) × (next_code fuel owner playlists base (numbered_code base n) (suc n)
        ≡ some code)
unfolding next_code
numbered-ends zero owner playlists xs base n h blocks = absurd (ground arith)
numbered-ends (suc fuel) owner playlists xs base n h blocks =
    let code = numbered_code base n in
    elim (Bool-cases (is_taken owner playlists code)) [
      | inr e ↦ (code, rw e refl)
      | inl e ↦
          let (found, q) =
            numbered-ends fuel owner playlists (without_code code xs) base (suc n)
              (omega (arith, length-without_code owner code xs (blocks n (omega arith) e)))
              (λ m l t.
                without_code-is_taken owner code (numbered_code base m) xs
                  (blocks m (omega arith) t)
                  (λ q. ground (arith, numbered_code-injective base n m q))) in
          (found, rw e q)
    ]

next_code-free :
    (fuel : ℕ) (owner : Option ℕ) (playlists : List Playlist) (base code : Text) (n : ℕ)
    {found : Text}
    → next_code fuel owner playlists base code n ≡ some found
    → is_taken owner playlists found ≡ false
unfolding next_code
next_code-free zero owner playlists base code n h = absurd (ground arith)
next_code-free (suc fuel) owner playlists base code n {found} h =
    elim (Bool-cases (is_taken owner playlists code)) [
      | inl e ↦
          next_code-free fuel owner playlists base (numbered_code base n) (suc n)
            (ground (arith, e))
      | inr e ↦ subst (λ c. is_taken owner playlists c ≡ false) (ground (arith, e)) e
    ]

length-append_cons : (xs ys : Text) (c : ℕ) → 1 ≤ length (xs ++ c ∷ ys)
length-append_cons [] ys c = ground arith
length-append_cons (x ∷ xs) ys c = ground arith

next_code-filled :
    (fuel : ℕ) (owner : Option ℕ) (playlists : List Playlist) (base code : Text) (n : ℕ)
    {found : Text}
    → next_code fuel owner playlists base code n ≡ some found
    → 1 ≤ length code
    → 1 ≤ length found
unfolding next_code numbered_code
next_code-filled zero owner playlists base code n h l = absurd (ground arith)
next_code-filled (suc fuel) owner playlists base code n {found} h l =
    elim (Bool-cases (is_taken owner playlists code)) [
      | inl e ↦
          let digits = decimal n in
          next_code-filled fuel owner playlists base (numbered_code base n) (suc n)
            (ground (arith, e))
            (length-append_cons (take (120 - length (45 ∷ digits)) base) digits 45)
      | inr e ↦ subst (λ c. 1 ≤ length c) {x = code} {y = found} (ground (arith, e)) l
    ]

next_code-length :
    (fuel : ℕ) (owner : Option ℕ) (playlists : List Playlist) (base code : Text) (n : ℕ)
    {found : Text}
    → next_code fuel owner playlists base code n ≡ some found
    → length code ≤ 120
    → n + fuel < 10 ^ 119
    → length found ≤ 120
unfolding next_code
next_code-length zero owner playlists base code n h l b = absurd (ground arith)
next_code-length (suc fuel) owner playlists base code n {found} h l b =
    elim (Bool-cases (is_taken owner playlists code)) [
      | inl e ↦
          next_code-length fuel owner playlists base (numbered_code base n) (suc n)
            (ground (arith, e)) (length-numbered_code base n (omega (arith, b))) (omega (arith, b))
      | inr e ↦ subst (λ c. length c ≤ 120) {x = code} {y = found} (ground (arith, e)) l
    ]

length-base :
    (env : PlaylistEnv) (text : Text)
    → length (or_default (normalize_playlist_code env text) default_code) ≤ 120
unfolding normalize_playlist_code
length-base env text =
    let code = take 120 (upper (env.slugify (strip text))) in
    ground (arith, length-take 120 (upper (env.slugify (strip text))))

pub next_code-ends :
    (owner : Option ℕ) (playlists : List Playlist) (base : Text)
    → length base ≤ 120
    → length playlists < 10 ^ 118
    → (code : Text) × (next_code (suc (suc (length playlists))) owner playlists base base 2
        ≡ some code)
      × (is_taken owner playlists code ≡ false)
      × (length code ≤ 120)
unfolding next_code
next_code-ends owner playlists base short small =
    let fuel = suc (length playlists) in
    let answer : (code : Text) × (next_code (suc fuel) owner playlists base base 2 ≡ some code) =
      elim (Bool-cases (is_taken owner playlists base)) [
        | inr e ↦ (base, rw e refl)
        | inl e ↦
            let (code, q) =
              numbered-ends fuel owner playlists playlists base 2 (omega arith) (λ m l t. t) in
            (code, rw e q)
      ] in
    let (code, q) = answer in
    (
      code,
      q,
      next_code-free (suc fuel) owner playlists base base 2 q,
      next_code-length (suc fuel) owner playlists base base 2 q short (omega (arith, small)),
    )

-- The search for a code ends, whatever `slugify` does: in as many rounds as there are playlists, and
-- two, it finds a code that no playlist of the owner has. With fewer than 10 ^ 118 playlists the code
-- has at most 120 characters.
pub next_available_code-ends :
    (env : PlaylistEnv) (owner : Option ℕ) (playlists : List Playlist) (text : Text)
    → length playlists < 10 ^ 118
    → (code : Text) × (next_available_code env owner playlists text ≡ some code)
      × (is_taken owner playlists code ≡ false)
      × (length code ≤ 120)
unfolding next_available_code
next_available_code-ends env owner playlists text small =
    next_code-ends owner playlists (or_default (normalize_playlist_code env text) default_code)
      (length-base env text) small

default-filled : (code : Text) → 1 ≤ length (or_default code default_code)
default-filled [] = ground arith
default-filled (c ∷ cs) = ground arith

fits-length : (max : ℕ) (code : Text) → 1 ≤ length code → length code ≤ max → fits max code ≡ true
fits-length max [] l b = absurd (ground arith)
fits-length max (c ∷ cs) l b = ground (arith, b)

-- The code passes the check of its column.
pub next_available_code-fits :
    (env : PlaylistEnv) (owner : Option ℕ) (playlists : List Playlist) (text : Text) {code : Text}
    → next_available_code env owner playlists text ≡ some code
    → length code ≤ 120
    → fits 120 code ≡ true
unfolding next_available_code
next_available_code-fits env owner playlists text {code} h l =
    let base = or_default (normalize_playlist_code env text) default_code in
    fits-length 120 code
      (next_code-filled (suc (suc (length playlists))) owner playlists base base 2 h
        (default-filled (normalize_playlist_code env text)))
      l
