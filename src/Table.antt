-- ===== src/Table.antt =====
-- A database table as its list of rows, with the statements that Django's ORM sends: `.get(id=k)`,
-- `instance.save()` on an existing row, `.objects.create(...)`, `instance.delete()` and
-- `queryset.update(...)`.
use brandy_manager_back.Prelude.{
  ℕ, ◌≡◌, ◌≢◌, refl, sym, ap, ◌∙◌, ◌⊎◌, inl, inr, Bool, true, false, not, Option, none, some, List,
  [], ◌∷◌, ◌++◌, Memᴰ, arith, ◌==◌, if◌then◌else◌, select, All, mem-select, mem-append,
  mem-singleton, Bool-cases,
}

-- The primary key of a model.
pub record Row (A : Type 0) : Type 0 where
  pub pk : A → ℕ

module _ {A : Type 0} ⦃r : Row A⦄ where
  -- `.filter(id=k).first()`
  abbrev pub get : ℕ → List A → Option A
  get k [] = none
  get k (x ∷ xs) = let rest = get k xs in if r.pk x == k then some x else rest

  -- `UPDATE ... WHERE id = x.id`
  abbrev pub save : A → List A → List A
  save x [] = []
  save x (y ∷ ys) = let rest = save x ys in if r.pk y == r.pk x then x ∷ rest else y ∷ rest

  -- `DELETE ... WHERE id = k`
  abbrev pub delete : ℕ → List A → List A
  delete k xs = select (λ x. not (r.pk x == k)) xs

  -- `INSERT`
  abbrev pub insert : A → List A → List A
  insert x xs = xs ++ x ∷ []

  -- `queryset.filter(p).update(f)`
  abbrev pub update : (A → Bool) → (A → A) → List A → List A
  update p f [] = []
  update p f (x ∷ xs) = (if p x then f x else x) ∷ update p f xs

  -- No two rows have one primary key.
  abbrev pub HasUniqueKeys : List A → Type 0
  HasUniqueKeys xs = (x y : A) → Memᴰ x xs → Memᴰ y xs → r.pk x ≡ r.pk y → x ≡ y

  pub mem-get : (k : ℕ) {x : A} (xs : List A) → get k xs ≡ some x → Memᴰ x xs
  mem-get k [] e = cc
  mem-get k (y ∷ ys) e = elim (Bool-cases (r.pk y == k)) [
    | inl h ↦ Memᴰ.head (ground arith)
    | inr h ↦ Memᴰ.tail (mem-get k ys (ground arith))
  ]

  pub pk-get : (k : ℕ) {x : A} (xs : List A) → get k xs ≡ some x → r.pk x ≡ k
  pk-get k [] e = cc
  pk-get k {x} (y ∷ ys) e = ground (arith, pk-get k {x = x} ys)

  pub get-eq-none : (k : ℕ) (xs : List A) → get k xs ≡ none → All (λ x. r.pk x ≢ k) xs
  get-eq-none k [] e x m = elim m [ ]
  get-eq-none k (y ∷ ys) e x (Memᴰ.head q) = rw q (ground arith)
  get-eq-none k (y ∷ ys) e x (Memᴰ.tail t) = get-eq-none k ys (ground arith) x t

  -- A row after a save is the one saved, or an old one with another key.
  pub mem-save :
      (x : A) {z : A} (xs : List A) → Memᴰ z (save x xs) → (z ≡ x) ⊎ (Memᴰ z xs × (r.pk z ≢ r.pk x))
  mem-save x [] m = elim m [ ]
  mem-save x {z} (y ∷ ys) m = go (r.pk y == r.pk x) refl m (mem-save x ys)
    where
      go :
          (b : Bool)
          → (r.pk y == r.pk x) ≡ b
          → Memᴰ z (if b then x ∷ save x ys else y ∷ save x ys)
          → (Memᴰ z (save x ys) → (z ≡ x) ⊎ (Memᴰ z ys × (r.pk z ≢ r.pk x)))
          → (z ≡ x) ⊎ (Memᴰ z (y ∷ ys) × (r.pk z ≢ r.pk x))
      go true e (Memᴰ.head q) ih = inl q
      go true e (Memᴰ.tail t) ih = elim (ih t) [ inl p ↦ inl p | inr p ↦ inr (Memᴰ.tail p.0, p.1) ]
      go false e (Memᴰ.head q) ih = inr (Memᴰ.head q, rw q (ground arith))
      go false e (Memᴰ.tail t) ih = elim (ih t) [ inl p ↦ inl p | inr p ↦ inr (Memᴰ.tail p.0, p.1) ]

  pub get-save :
      (x : A) {old : A} (xs : List A)
      → get (r.pk x) xs ≡ some old
      → get (r.pk x) (save x xs) ≡ some x
  get-save x [] e = cc
  get-save x {old} (y ∷ ys) e = ground (arith, get-save x {old = old} ys)

  pub get-save_ne : (x : A) (k : ℕ) (xs : List A) → r.pk x ≢ k → get k (save x xs) ≡ get k xs
  get-save_ne x k [] h = refl
  get-save_ne x k (y ∷ ys) h = ground (arith, get-save_ne x k ys h)

  pub get-insert_ne : (x : A) (k : ℕ) (xs : List A) → r.pk x ≢ k → get k (insert x xs) ≡ get k xs
  get-insert_ne x k [] h = ground arith
  get-insert_ne x k (y ∷ ys) h = ground (arith, get-insert_ne x k ys h)

  pub get-insert_self :
      (x : A) (xs : List A) → get (r.pk x) xs ≡ none → get (r.pk x) (insert x xs) ≡ some x
  get-insert_self x [] h = ground arith
  get-insert_self x (y ∷ ys) h = ground (arith, get-insert_self x ys)

  pub mem-update :
      (p : A → Bool) (f : A → A) {z : A} (xs : List A)
      → Memᴰ z (update p f xs)
      → (x : A) × Memᴰ x xs × (z ≡ (if p x then f x else x))
  mem-update p f [] m = elim m [ ]
  mem-update p f (x ∷ xs) (Memᴰ.head q) = (x, Memᴰ.head refl, q)
  mem-update p f (x ∷ xs) (Memᴰ.tail t) = let (y, m, q) = mem-update p f xs t in (y, Memᴰ.tail m, q)

  pub mem-delete : (k : ℕ) {z : A} (xs : List A) → Memᴰ z (delete k xs) → Memᴰ z xs × (r.pk z ≢ k)
  mem-delete k {z} xs m =
      let (m', e) = mem-select (λ x. not (r.pk x == k)) xs m in (m', ground arith)

  pub delete-get : (k : ℕ) (xs : List A) → get k (delete k xs) ≡ none
  delete-get k [] = refl
  delete-get k (x ∷ xs) = ground (arith, delete-get k xs)

  -- Unique keys survive every statement, an insert with an unused key included.
  pub save-HasUniqueKeys : (x : A) (xs : List A) → HasUniqueKeys xs → HasUniqueKeys (save x xs)
  save-HasUniqueKeys x xs u a b ma mb e = elim (mem-save x xs ma) [
    | inl p ↦ elim (mem-save x xs mb) [
      | inl q ↦ p ∙ sym q
      | inr q ↦ absurd (q.1 (sym e ∙ ap r.pk p))
    ]
    | inr p ↦ elim (mem-save x xs mb) [
      | inl q ↦ absurd (p.1 (e ∙ ap r.pk q))
      | inr q ↦ u a b p.0 q.0 e
    ]
  ]

  pub delete-HasUniqueKeys : (k : ℕ) (xs : List A) → HasUniqueKeys xs → HasUniqueKeys (delete k xs)
  delete-HasUniqueKeys k xs u a b ma mb e = u a b (mem-delete k xs ma).0 (mem-delete k xs mb).0 e

  pub insert-HasUniqueKeys :
      (x : A) (xs : List A)
      → HasUniqueKeys xs
      → get (r.pk x) xs ≡ none
      → HasUniqueKeys (insert x xs)
  insert-HasUniqueKeys x xs u h a b ma mb e = elim (mem-append xs (x ∷ []) ma) [
    | inl p ↦ elim (mem-append xs (x ∷ []) mb) [
      | inl q ↦ u a b p q e
      | inr q ↦ absurd (get-eq-none (r.pk x) xs h a p (e ∙ ap r.pk (mem-singleton q)))
    ]
    | inr p ↦ elim (mem-append xs (x ∷ []) mb) [
      | inl q ↦ absurd (get-eq-none (r.pk x) xs h b q (sym e ∙ ap r.pk (mem-singleton p)))
      | inr q ↦ mem-singleton p ∙ sym (mem-singleton q)
    ]
  ]

  pub update-mem :
      (p : A → Bool) (f : A → A) {x : A} (xs : List A)
      → Memᴰ x xs
      → Memᴰ (if p x then f x else x) (update p f xs)
  update-mem p f [] m = elim m [ ]
  update-mem p f (y ∷ ys) (Memᴰ.head q) = Memᴰ.head (ap (λ x. if p x then f x else x) q)
  update-mem p f (y ∷ ys) (Memᴰ.tail t) = Memᴰ.tail (update-mem p f ys t)

  pub update-HasUniqueKeys :
      (p : A → Bool) (f : A → A) (xs : List A)
      → ((x : A) → r.pk (f x) ≡ r.pk x)
      → HasUniqueKeys xs
      → HasUniqueKeys (update p f xs)
  update-HasUniqueKeys p f xs keeps u a b ma mb e =
      let (x, mx, qa) = mem-update p f xs ma in
      let (y, my, qb) = mem-update p f xs mb in
      let same : (z : A) → r.pk (if p z then f z else z) ≡ r.pk z =
        λ z. elim (Bool-cases (p z)) [ inl h ↦ rw h (keeps z) | inr h ↦ rw h refl ] in
      qa
      ∙ ap (λ z. if p z then f z else z)
          (u x y mx my (sym (ap r.pk qa ∙ same x) ∙ e ∙ ap r.pk qb ∙ same y))
      ∙ sym qb

  -- A statement on a row that a filter drops, before and after, does not change what is selected.
  pub select-insert_dropped :
      (p : A → Bool) (x : A) (xs : List A) → p x ≡ false → select p (insert x xs) ≡ select p xs
  select-insert_dropped p x [] h = ground arith
  select-insert_dropped p x (y ∷ ys) h = ground (arith, select-insert_dropped p x ys)

  pub select-save_dropped :
      (p : A → Bool) (x : A) (xs : List A)
      → p x ≡ false
      → All (λ y. r.pk y ≡ r.pk x → p y ≡ false) xs
      → select p (save x xs) ≡ select p xs
  select-save_dropped p x [] h old = refl
  select-save_dropped p x (y ∷ ys) h old =
      ground
        (arith, old y (Memᴰ.head refl), select-save_dropped p x ys h (λ z m. old z (Memᴰ.tail m)))
