-- ===== src/Scheduling/Rows.antt =====
-- Tables whose rows must not clash pairwise, for any kind of row: blocks, exceptions and assignments.
use brandy_manager_back.Prelude.{
  ◌≡◌, sym, ◌∙◌, subst, List, [], ◌∷◌, Bool, false, Memᴰ, inl, inr, All, ◌⊎◌, select, select-nil,
  mem-append, mem-singleton, ℕ, Bool-cases,
}
use brandy_manager_back.Table.{Row, insert, save, delete, update, mem-save, mem-delete, mem-update}

module _ {A : Type 0} ⦃r : Row A⦄ (good : A → Type 0) (clash : A → A → Bool) where
  -- Every row is good by itself, and no two rows clash.
  pub record IsFree (xs : List A) : Type 0 where
    pub each : All good xs
    pub pairs : (a b : A) → Memᴰ a xs → Memᴰ b xs → clash a b ≡ false

  -- What one request does to such a table.
  pub data Step (xs ys : List A) : Type 0 where
    unchanged : ys ≡ xs → Step xs ys
    added : (b : A) → ys ≡ insert b xs → good b → select (clash b) ys ≡ [] → Step xs ys
    saved : (b : A) → ys ≡ save b xs → good b → select (clash b) ys ≡ [] → Step xs ys
    removed : (k : ℕ) → ys ≡ delete k xs → Step xs ys
    updated :
        (p : A → Bool) (f : A → A)
        → ys ≡ update p f xs
        → ((a : A) → good a → good (f a))
        → ((a b : A) → clash (f a) b ≡ false)
        → Step xs ys

  module _ (symmetric : (a b : A) → clash a b ≡ clash b a)
      (irreflexive : (a : A) → clash a a ≡ false) where
    -- A table of the new row and of old ones, which the new row was compared with.
    with_new :
        (b : A) (xs ys : List A)
        → ((a : A) → Memᴰ a ys → (a ≡ b) ⊎ Memᴰ a xs)
        → good b
        → select (clash b) ys ≡ []
        → IsFree xs
        → IsFree ys
    with_new b xs ys origin g none_found free = record {
      each = λ a m. elim (origin a m) [ inl p ↦ subst good (sym p) g | inr q ↦ free.each a q ];
      pairs = λ a c ma mc. elim (origin a ma) [
        | inl p ↦ rw p (select-nil (clash b) ys none_found c mc)
        | inr q ↦ elim (origin c mc) [
          | inl p ↦ rw p (symmetric a b ∙ select-nil (clash b) ys none_found a ma)
          | inr q' ↦ free.pairs a c q q'
        ]
      ];
    }

    after_update :
        (p : A → Bool) (f : A → A) (xs : List A)
        → ((a : A) → good a → good (f a))
        → ((a b : A) → clash (f a) b ≡ false)
        → IsFree xs
        → IsFree (update p f xs)
    after_update p f xs keeps quiet free = record {
      each = λ a m.
          let (x, mx, e) = mem-update p f xs m in
          elim (Bool-cases (p x)) [
            | inl h ↦ rw (e, h) (keeps x (free.each x mx))
            | inr h ↦ rw (e, h) (free.each x mx)
          ];
      pairs = λ a b ma mb.
          let (x, mx, e) = mem-update p f xs ma in
          let (y, my, e') = mem-update p f xs mb in
          elim (Bool-cases (p x)) [
            | inl h ↦ rw (e, h) (quiet x b)
            | inr h ↦ elim (Bool-cases (p y)) [
              | inl h' ↦ rw (e', h') (symmetric a (f y) ∙ quiet y a)
              | inr h' ↦ rw (e, h, e', h') (free.pairs x y mx my)
            ]
          ];
    }

    pub Step-IsFree : {xs ys : List A} → Step xs ys → IsFree xs → IsFree ys
    Step-IsFree (unchanged e) free = subst IsFree (sym e) free
    Step-IsFree {xs} {ys} (added b e g n) free =
        with_new b xs ys
          (λ a m. elim (mem-append xs (b ∷ []) (subst (Memᴰ a) e m)) [
            | inl q ↦ inr q
            | inr q ↦ inl (mem-singleton q)
          ])
          g n free
    Step-IsFree {xs} {ys} (saved b e g n) free =
        with_new b xs ys
          (λ a m. elim (mem-save b xs (subst (Memᴰ a) e m)) [ inl q ↦ inl q | inr q ↦ inr q.0 ]) g n
          free
    Step-IsFree {xs} (removed k e) free = subst IsFree (sym e) (record {
      each = λ a m. free.each a (mem-delete k xs m).0;
      pairs = λ a b ma mb. free.pairs a b (mem-delete k xs ma).0 (mem-delete k xs mb).0;
    })
    Step-IsFree {xs} (updated p f e keeps quiet) free =
        subst IsFree (sym e) (after_update p f xs keeps quiet free)
