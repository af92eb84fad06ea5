-- ===== src/Playlists/Decimal.antt =====
-- Codes with a numbered tail differ (apps/playlists/services.py, `next_available_code`).
use Prim.Native.Nat.{◌/◌, ◌%◌, ◌^◌}
use brandy_manager_back.Prelude.{
  ℕ, zero, suc, ◌+◌, ◌-◌, ◌*◌, ◌≤◌, ◌<◌, ◌≡◌, refl, sym, ap, ◌∙◌, [], ◌∷◌, ◌++◌, Bool, true, false,
  arith, ltb, ◌==◌, if◌then◌else◌, exists, take, length, length-append, length-take, Bool-cases,
  inl, inr,
}
use brandy_manager_back.Text.{Text, digits, decimal, text_eq}
use brandy_manager_back.Playlists.Codes.{numbered_code}

-- What a text of digits denotes, after what was read before.
unfoldable value : ℕ → Text → ℕ
value acc [] = acc
value acc (c ∷ cs) = value (acc * 10 + (c - 48)) cs

value-append : (acc : ℕ) (xs ys : Text) → value acc (xs ++ ys) ≡ value (value acc xs) ys
unfolding value
value-append acc [] ys = refl
value-append acc (x ∷ xs) ys = value-append (acc * 10 + (x - 48)) xs ys

value-digits : (fuel n : ℕ) → n < fuel → value 0 (digits fuel n) ≡ n
unfolding digits value
value-digits zero n h = absurd (ground arith)
value-digits (suc fuel) n h = elim (Bool-cases (ltb n 10)) [
  | inl e ↦ ground (arith, e)
  | inr e ↦ rw e (
      value-append 0 (digits fuel (n / 10)) ((48 + n % 10) ∷ [])
      ∙ omega (arith, value-digits fuel (n / 10) (ground (arith, e))))
]

value-decimal : (n : ℕ) → value 0 (decimal n) ≡ n
unfolding decimal
value-decimal n = value-digits (suc n) n (omega arith)

abbrev has_dash : Text → Bool
has_dash text = exists (λ c. c == 45) text

has_dash-append : (xs : Text) (d : ℕ) → has_dash xs ≡ false → has_dash (xs ++ (48 + d) ∷ []) ≡ false
has_dash-append [] d h = ground arith
has_dash-append (x ∷ xs) d h = ground (arith, has_dash-append xs d (ground (arith, h)), h)

digits-has_dash : (fuel n : ℕ) → has_dash (digits fuel n) ≡ false
unfolding digits
digits-has_dash zero n = refl
digits-has_dash (suc fuel) n =
    ground (arith, has_dash-append (digits fuel (n / 10)) (n % 10) (digits-has_dash fuel (n / 10)))

-- What follows the last dash.
unfoldable after_dash : Text → Text
after_dash [] = []
after_dash (c ∷ cs) = let rest = after_dash cs in if has_dash cs then rest else cs

has_dash-tail : (xs ds : Text) → has_dash (xs ++ 45 ∷ ds) ≡ true
has_dash-tail [] ds = refl
has_dash-tail (x ∷ xs) ds = ground (arith, has_dash-tail xs ds)

after_dash-append : (xs ds : Text) → has_dash ds ≡ false → after_dash (xs ++ 45 ∷ ds) ≡ ds
unfolding after_dash
after_dash-append [] ds h = rw h refl
after_dash-append (x ∷ xs) ds h = rw (has_dash-tail xs ds) (after_dash-append xs ds h)

-- What stands before the last dash does not matter.
pub tail-injective : (a b : Text) (m n : ℕ) → a ++ 45 ∷ decimal m ≡ b ++ 45 ∷ decimal n → m ≡ n
unfolding decimal
tail-injective a b m n h =
    sym (value-decimal m)
    ∙ ap (value 0) (
        sym (after_dash-append a (decimal m) (digits-has_dash (suc m) m))
        ∙ ap after_dash h
        ∙ after_dash-append b (decimal n) (digits-has_dash (suc n) n))
    ∙ value-decimal n

-- A code tells the number of its tail.
pub numbered_code-injective :
    (base : Text) (m n : ℕ) → numbered_code base m ≡ numbered_code base n → m ≡ n
unfolding numbered_code
numbered_code-injective base m n h =
    tail-injective (take (120 - length (45 ∷ decimal m)) base)
      (take (120 - length (45 ∷ decimal n)) base) m n h

length-digits : (fuel n k : ℕ) → n < 10 ^ suc k → length (digits fuel n) ≤ suc k
unfolding digits
length-digits zero n k h = omega arith
length-digits (suc fuel) n zero h = ground (arith, h)
length-digits (suc fuel) n (suc k) h = ground (
  arith,
  length-append (digits fuel (n / 10)) ((48 + n % 10) ∷ []),
  length-digits fuel (n / 10) k (omega (arith, h)),
)

-- A numbered code keeps to 120 characters.
pub length-numbered_code :
    (base : Text) (n : ℕ) → n < 10 ^ 119 → length (numbered_code base n) ≤ 120
unfolding numbered_code decimal
length-numbered_code base n h =
    let tail = 45 ∷ decimal n in
    omega (
      arith,
      length-append (take (120 - length tail) base) tail,
      length-take (120 - length tail) base,
      length-digits (suc n) n 118 h,
    )

pub text_eq→eq : (a b : Text) → text_eq a b ≡ true → a ≡ b
unfolding text_eq
text_eq→eq [] [] h = refl
text_eq→eq [] (d ∷ ds) h = absurd (ground arith)
text_eq→eq (c ∷ cs) [] h = absurd (ground arith)
text_eq→eq (c ∷ cs) (d ∷ ds) h = ground (arith, text_eq→eq cs ds (ground (arith, h)), h)

pub text_eq_refl : (a : Text) → text_eq a a ≡ true
unfolding text_eq
text_eq_refl [] = refl
text_eq_refl (c ∷ cs) = ground (arith, text_eq_refl cs)
