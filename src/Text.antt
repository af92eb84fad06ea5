-- ===== src/Text.antt =====
-- Python's `str` methods that the services use, on ASCII text as lists of code points.
use Prim.Native.Nat.{◌/◌, ◌%◌}
use brandy_manager_back.Prelude.{
  ℕ, zero, suc, ◌+◌, ◌-◌, ltb, ◌++◌, List, [], ◌∷◌, map, Bool, true, false, not, ◌&&◌, ◌||◌, leb,
  ◌==◌, if◌then◌else◌, select, length,
}

abbrev pub Text : Type 0
Text = List ℕ

unfoldable pub is_space : ℕ → Bool
is_space c = c == 32 || leb 9 c && leb c 13 || leb 28 c && leb c 31

unfoldable pub upper_char : ℕ → ℕ
upper_char c = if leb 97 c && leb c 122 then c - 32 else c

unfoldable pub upper : Text → Text
unfolding upper_char
upper text = map upper_char text

-- `"".join(text.split())`
unfoldable pub without_spaces : Text → Text
unfolding is_space
without_spaces text = select (λ c. not (is_space c)) text

-- `text.replace("-", "")`
unfoldable pub without_dashes : Text → Text
without_dashes text = select (λ c. not (c == 45)) text

unfoldable pub lstrip : Text → Text
unfolding is_space
lstrip [] = []
lstrip (c ∷ cs) = let rest = lstrip cs in if is_space c then rest else c ∷ cs

abbrev pub all_spaces : Text → Bool
all_spaces [] = true
all_spaces (c ∷ cs) = is_space c && all_spaces cs

-- Drops the spaces at the end.
unfoldable pub rstrip : Text → Text
unfolding is_space
rstrip [] = []
rstrip (c ∷ cs) = let rest = rstrip cs in if all_spaces (c ∷ cs) then [] else c ∷ rest

unfoldable pub strip : Text → Text
unfolding lstrip rstrip
strip text = lstrip (rstrip text)

unfoldable pub text_eq : Text → Text → Bool
text_eq [] [] = true
text_eq [] (d ∷ ds) = false
text_eq (c ∷ cs) [] = false
text_eq (c ∷ cs) (d ∷ ds) = c == d && text_eq cs ds

-- `str(n)`: every round divides by ten, so as many rounds as n, and one, are enough.
unfoldable pub digits : ℕ → ℕ → Text
digits zero n = []
digits (suc fuel) n =
    let rest = digits fuel (n / 10) in
    if ltb n 10 then (48 + n) ∷ [] else rest ++ ((48 + n % 10) ∷ [])

unfoldable pub decimal : ℕ → Text
unfolding digits
decimal n = digits (suc n) n

-- `text or default`
abbrev pub or_default : Text → Text → Text
or_default [] default = default
or_default (c ∷ cs) default = c ∷ cs

-- Django's check of a `CharField` that may not be blank, by its `max_length`.
abbrev pub fits : ℕ → Text → Bool
fits max [] = false
fits max (c ∷ cs) = leb (length (c ∷ cs)) max
