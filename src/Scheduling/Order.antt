-- ===== src/Scheduling/Order.antt =====
-- The sort keys of apps/scheduling/selectors.py order their rows: lexicographic keys, largest first.
use brandy_manager_back.Prelude.{ℕ, ℤ, Bool, ◌&&◌, ◌||◌, ltb, ◌==◌, arith, IsKeyOrder, ltb_ℤ, eqb_ℤ}
use brandy_manager_back.Scheduling.Resolution.{
  Candidate, ranked_before, block_before, exception_before, bool_rank, scope_specificity,
}

module _ {A : Type 0} where
  -- The last key.
  larger : (A → ℕ) → A → A → Bool
  larger f x y = ltb (f y) (f x)

  larger-IsKeyOrder : (f : A → ℕ) → IsKeyOrder (larger f)
  unfolding larger
  larger-IsKeyOrder f = record {
    asym = λ x y h. ground arith;
    neg_trans = λ x y z h k. ground arith;
  }

  -- A key ahead of the others, a number or an integer.
  abbrev lex : (A → ℕ) → (A → A → Bool) → A → A → Bool
  lex f rest x y = ltb (f y) (f x) || (f x == f y) && rest x y

  abbrev lex_ℤ : (A → ℤ) → (A → A → Bool) → A → A → Bool
  lex_ℤ f rest x y = ltb_ℤ (f y) (f x) || eqb_ℤ (f x) (f y) && rest x y

  lex-IsKeyOrder : (f : A → ℕ) (rest : A → A → Bool) → IsKeyOrder rest → IsKeyOrder (lex f rest)
  lex-IsKeyOrder f rest order = record {
    asym = λ x y h. ground (arith, order.asym x y);
    neg_trans = λ x y z h k. ground (arith, order.neg_trans x y z);
  }

  lex_ℤ-IsKeyOrder : (f : A → ℤ) (rest : A → A → Bool) → IsKeyOrder rest → IsKeyOrder (lex_ℤ f rest)
  lex_ℤ-IsKeyOrder f rest order = record {
    asym = λ x y h. ground (arith, order.asym x y);
    neg_trans = λ x y z h k. ground (arith, order.neg_trans x y z);
  }

pub block_before-IsKeyOrder : IsKeyOrder block_before
unfolding larger
block_before-IsKeyOrder =
    lex_ℤ-IsKeyOrder (λ b. b.priority) (larger (λ b. b.created_at))
      (larger-IsKeyOrder (λ b. b.created_at))

pub exception_before-IsKeyOrder : IsKeyOrder exception_before
unfolding larger
exception_before-IsKeyOrder =
    lex_ℤ-IsKeyOrder (λ e. e.priority) (larger (λ e. e.created_at))
      (larger-IsKeyOrder (λ e. e.created_at))

pub ranked_before-IsKeyOrder : IsKeyOrder ranked_before
unfolding larger ranked_before
ranked_before-IsKeyOrder =
    let newest = larger {A = Candidate} (λ c. c.assignment.created_at) in
    let specific = lex (λ c. scope_specificity c.scope_type) newest in
    let ranked = lex_ℤ (λ c. c.assignment.priority) specific in
    lex-IsKeyOrder (λ c. bool_rank c.assignment.is_locked) ranked
      (lex_ℤ-IsKeyOrder (λ c. c.assignment.priority) specific
        (lex-IsKeyOrder (λ c. scope_specificity c.scope_type) newest
          (larger-IsKeyOrder (λ c. c.assignment.created_at))))
