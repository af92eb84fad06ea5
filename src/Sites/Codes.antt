-- ===== src/Sites/Codes.antt =====
-- `_generate_code` of apps/organizations/services.py: a code from a name, made unused by a numbered tail.
use brandy_manager_back.Prelude.{
  ℕ, zero, suc, ◌≤◌, ◌<◌, ◌≡◌, ◌≢◌, refl, sym, ◌∙◌, subst, Option, none, some, List, [], ◌∷◌, ◌++◌,
  Bool, true, false, not, arith, if◌then◌else◌, exists, exists-mem, mem-exists, select, select-mem,
  length, length-select, take, Bool-cases, inl, inr,
}
use brandy_manager_back.Text.{Text, upper, text_eq, decimal, or_default}
use brandy_manager_back.Playlists.Decimal.{tail-injective, text_eq→eq}

unfoldable pub has_text : Text → List Text → Bool
unfolding text_eq
has_text code codes = exists (λ c. text_eq c code) codes

unfoldable pub tail_code : Text → ℕ → Text
unfolding decimal
tail_code base suffix = take 44 base ++ 45 ∷ decimal suffix

-- The loop, on the codes in use; it returns nothing when the fuel runs out.
unfoldable pub unused_code : ℕ → List Text → Text → Text → ℕ → Option Text
unfolding has_text tail_code
unused_code zero codes base code suffix = none
unused_code (suc fuel) codes base code suffix =
    let rest = unused_code fuel codes base (tail_code base (suc suffix)) (suc suffix) in
    if has_text code codes then rest else some code

-- `"RESOURCE"`
abbrev pub resource_code : Text
resource_code = 82 ∷ 69 ∷ 83 ∷ 79 ∷ 85 ∷ 82 ∷ 67 ∷ 69 ∷ []

-- The numbered codes differ, so as many rounds as codes in use, and two, are enough.
unfoldable pub generate_code : (Text → Text) → List Text → Text → Option Text
unfolding unused_code upper
generate_code slugify codes name =
    let base = or_default (take 48 (upper (slugify name))) resource_code in
    unused_code (suc (suc (length codes))) codes base base 1

abbrev without : Text → List Text → List Text
without code codes = select (λ c. not (text_eq c code)) codes

length-without :
    (code : Text) (codes : List Text)
    → has_text code codes ≡ true
    → length (without code codes) < length codes
unfolding has_text
length-without code [] h = absurd (ground (arith, h))
length-without code (c ∷ cs) h = elim (Bool-cases (text_eq c code)) [
  | inl e ↦ ground (arith, e, length-select (λ d. not (text_eq d code)) cs)
  | inr e ↦ ground (arith, e, length-without code cs (ground (arith, e, h)))
]

without-has_text :
    (code other : Text) (codes : List Text)
    → has_text other codes ≡ true
    → code ≢ other
    → has_text other (without code codes) ≡ true
unfolding has_text
without-has_text code other codes h d =
    let (c, m, e) = exists-mem (λ c. text_eq c other) codes h in
    mem-exists (λ c. text_eq c other) (without code codes)
      (select-mem (λ c. not (text_eq c code)) codes m
        (elim (Bool-cases (text_eq c code)) [
          | inl f ↦ absurd (d (sym (text_eq→eq c code f) ∙ text_eq→eq c other e))
          | inr f ↦ ground (arith, f)
        ]))
      e

tail_code-injective : (base : Text) (m n : ℕ) → tail_code base m ≡ tail_code base n → m ≡ n
unfolding tail_code
tail_code-injective base m n q = tail-injective (take 44 base) (take 44 base) m n q

numbered-ends :
    (fuel : ℕ) (codes left : List Text) (base : Text) (n : ℕ)
    → length left < fuel
    → ((m : ℕ)
        → n ≤ m
        → has_text (tail_code base m) codes ≡ true
        → has_text (tail_code base m) left ≡ true)
    → (code : Text) × (unused_code fuel codes base (tail_code base n) n ≡ some code)
unfolding unused_code
numbered-ends zero codes left base n h blocks = absurd (ground (arith, h))
numbered-ends (suc fuel) codes left base n h blocks =
    let code = tail_code base n in
    elim (Bool-cases (has_text code codes)) [
      | inr e ↦ (code, rw e refl)
      | inl e ↦
          let (found, q) =
            numbered-ends fuel codes (without code left) base (suc n)
              (omega (arith, h, length-without code left (blocks n (omega arith) e)))
              (λ m l t.
                without-has_text code (tail_code base m) left (blocks m (omega (arith, l)) t)
                  (λ q. ground (arith, l, tail_code-injective base n m q))) in
          (found, rw e q)
    ]

unused_code-free :
    (fuel : ℕ) (codes : List Text) (base code : Text) (n : ℕ) {found : Text}
    → unused_code fuel codes base code n ≡ some found
    → has_text found codes ≡ false
unfolding unused_code
unused_code-free zero codes base code n h = absurd (ground arith)
unused_code-free (suc fuel) codes base code n {found} h = elim (Bool-cases (has_text code codes)) [
  | inl e ↦ unused_code-free fuel codes base (tail_code base (suc n)) (suc n) (ground (arith, e))
  | inr e ↦ subst (λ c. has_text c codes ≡ false) {x = code} {y = found} (ground (arith, e)) e
]

-- The search for a code ends, whatever `slugify` does: in as many rounds as there are codes in use, and
-- two, it finds a code that is not in use.
pub generate_code-ends :
    (slugify : Text → Text) (codes : List Text) (name : Text)
    → (code : Text) × (generate_code slugify codes name ≡ some code) × (has_text code codes ≡ false)
unfolding generate_code unused_code
generate_code-ends slugify codes name =
    let base = or_default (take 48 (upper (slugify name))) resource_code in
    let fuel = suc (length codes) in
    let answer : (code : Text) × (unused_code (suc fuel) codes base base 1 ≡ some code) =
      elim (Bool-cases (has_text base codes)) [
        | inr e ↦ (base, rw e refl)
        | inl e ↦
            let (code, q) = numbered-ends fuel codes codes base 2 (omega arith) (λ m l t. t) in
            (code, rw e q)
      ] in
    (answer.0, answer.1, unused_code-free (suc fuel) codes base base 1 answer.1)
