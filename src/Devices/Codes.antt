-- ===== src/Devices/Codes.antt =====
-- Activation codes of apps/devices/services.py as they are printed and typed in.
use brandy_manager_back.Prelude.{ℕ, ◌≡◌, refl, ap, [], ◌∷◌, Bool, true, ◌&&◌, arith, leb, ◌∙◌}
use brandy_manager_back.Text.{Text, is_space, upper_char, upper, without_spaces, without_dashes}
use brandy_manager_back.Devices.Activation.{normalize_activation_code, format_activation_code}

-- A character of a code: no space, no dash, no small letter. Those of ACTIVATION_ALPHABET are such.
unfoldable pub is_code_char : ℕ → Bool
is_code_char c = leb 48 c && leb c 90

unfoldable pub is_code : Text → Bool
unfolding is_code_char
is_code [] = true
is_code (c ∷ cs) = is_code_char c && is_code cs

-- One character through normalization.
normalize-cons :
    (c : ℕ) (cs : Text)
    → is_code_char c ≡ true
    → normalize_activation_code (c ∷ cs) ≡ c ∷ normalize_activation_code cs
unfolding is_code_char normalize_activation_code upper without_spaces without_dashes is_space
    upper_char
normalize-cons c cs h = ground arith

normalize-dash : (cs : Text) → normalize_activation_code (45 ∷ cs) ≡ normalize_activation_code cs
unfolding normalize_activation_code upper without_spaces without_dashes is_space upper_char
normalize-dash cs = refl

normalize-nil : normalize_activation_code [] ≡ []
unfolding normalize_activation_code upper without_spaces without_dashes
normalize-nil = refl

pub normalize-code : (cs : Text) → is_code cs ≡ true → normalize_activation_code cs ≡ cs
unfolding is_code
normalize-code [] h = normalize-nil
normalize-code (c ∷ cs) h =
    normalize-cons c cs (ground arith) ∙ ap (λ x. c ∷ x) (normalize-code cs (ground arith))

-- A code typed in as it was printed, in groups of four with dashes, is the code that was drawn.
pub normalize-format :
    (code : Text)
    → is_code code ≡ true
    → normalize_activation_code (format_activation_code code) ≡ code
unfolding format_activation_code is_code
normalize-format (a ∷ b ∷ c ∷ d ∷ e ∷ rest) h =
    let tail = format_activation_code (e ∷ rest) in
    normalize-cons a (b ∷ c ∷ d ∷ 45 ∷ tail) (ground arith)
    ∙ ap (λ x. a ∷ x)
        (normalize-cons b (c ∷ d ∷ 45 ∷ tail) (ground arith)
          ∙ ap (λ x. b ∷ x)
              (normalize-cons c (d ∷ 45 ∷ tail) (ground arith)
                ∙ ap (λ x. c ∷ x)
                    (normalize-cons d (45 ∷ tail) (ground arith)
                      ∙ ap (λ x. d ∷ x)
                          (normalize-dash tail ∙ normalize-format (e ∷ rest) (ground arith)))))
normalize-format [] h = normalize-code [] h
normalize-format (a ∷ []) h = normalize-code (a ∷ []) h
normalize-format (a ∷ b ∷ []) h = normalize-code (a ∷ b ∷ []) h
normalize-format (a ∷ b ∷ c ∷ []) h = normalize-code (a ∷ b ∷ c ∷ []) h
normalize-format (a ∷ b ∷ c ∷ d ∷ []) h = normalize-code (a ∷ b ∷ c ∷ d ∷ []) h
