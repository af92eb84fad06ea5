-- ===== src/Prelude/Lists.antt =====
-- Lists measured by native numbers, filtered by Boolean tests, and sorted as Python's `sorted`.
use Prim.Native.Nat.{ℕ, zero, suc, ◌+◌, ◌≤◌}
use mathlib.Core.Path.{◌≡◌, refl, sym, ap, subst}
use mathlib.Core.Logic.{◌⊎◌, inl, inr}
use mathlib.Core.List.Memᴰ
use mathlib.Core.Bool.{Bool, true, false, ◌||◌}
use mathlib.Core.Option.{Option, none, some}
use mathlib.Core.List.{List, [], ◌∷◌, ◌++◌, map, Memᴰ}
use native.Mathlib.Omega.{arith}
use brandy_manager_back.Prelude.Tests.{if◌then◌else◌, Bool-cases}

module _ {ℓ} {A : Type ℓ} where
  abbrev pub length : List A → ℕ
  length [] = 0
  length (x ∷ xs) = suc (length xs)

  abbrev pub take : ℕ → List A → List A
  take zero xs = []
  take (suc n) [] = []
  take (suc n) (x ∷ xs) = x ∷ take n xs

  -- `[x for x in xs if p(x)]`, and a queryset's `.filter(p)`.
  abbrev pub select : (A → Bool) → List A → List A
  select p [] = []
  select p (x ∷ xs) = let rest = select p xs in if p x then x ∷ rest else rest

  -- `any(p(x) for x in xs)`, and `.filter(p).exists()`.
  abbrev pub exists : (A → Bool) → List A → Bool
  exists p [] = false
  exists p (x ∷ xs) = p x || exists p xs

  -- `.first()`
  abbrev pub first : List A → Option A
  first [] = none
  first (x ∷ xs) = some x

  -- A stable sort in the order in which `before x y` puts x strictly ahead of y.
  unfoldable pub insert_by : (A → A → Bool) → A → List A → List A
  insert_by before x [] = x ∷ []
  insert_by before x (y ∷ ys) =
      let rest = insert_by before x ys in if before y x then y ∷ rest else x ∷ y ∷ ys

  -- `sorted(xs, key=...)` and `.order_by(...)`.
  unfoldable pub sort_by : (A → A → Bool) → List A → List A
  unfolding insert_by
  sort_by before [] = []
  sort_by before (x ∷ xs) = insert_by before x (sort_by before xs)

module _ {ℓ} {A : Type ℓ} where
  -- Every element satisfies `P`.
  abbrev pub All {κ} : (A → Type κ) → List A → Type (ℓ ⊔ κ)
  All P xs = (x : A) → Memᴰ x xs → P x

  -- What is selected comes from the list and passes the test.
  pub mem-select :
      (p : A → Bool) {x : A} (xs : List A) → Memᴰ x (select p xs) → Memᴰ x xs × (p x ≡ true)
  mem-select p [] m = elim m [ ]
  mem-select p {x} (y ∷ ys) m = go (p y) refl m (mem-select p ys)
    where
      go :
          (b : Bool)
          → p y ≡ b
          → Memᴰ x (if b then y ∷ select p ys else select p ys)
          → (Memᴰ x (select p ys) → Memᴰ x ys × (p x ≡ true))
          → Memᴰ x (y ∷ ys) × (p x ≡ true)
      go true e (Memᴰ.head q) ih = (Memᴰ.head q, subst (λ z. p z ≡ true) (sym q) e)
      go true e (Memᴰ.tail t) ih = (Memᴰ.tail (ih t).0, (ih t).1)
      go false e t ih = (Memᴰ.tail (ih t).0, (ih t).1)

  pub select-mem :
      (p : A → Bool) {x : A} (xs : List A) → Memᴰ x xs → p x ≡ true → Memᴰ x (select p xs)
  select-mem p [] m e = elim m [ ]
  select-mem p (y ∷ ys) (Memᴰ.head q) e = rw (subst (λ z. p z ≡ true) q e) (Memᴰ.head q)
  select-mem p {x} (y ∷ ys) (Memᴰ.tail t) e = go (p y) (select-mem p ys t e)
    where
      go : (b : Bool) → Memᴰ x (select p ys) → Memᴰ x (if b then y ∷ select p ys else select p ys)
      go true m = Memᴰ.tail m
      go false m = m

  -- An empty selection: no element passes.
  pub select-nil : (p : A → Bool) (xs : List A) → select p xs ≡ [] → All (λ x. p x ≡ false) xs
  select-nil p xs e x m = elim (Bool-cases (p x)) [
    | inl h ↦ absurd (Memᴰ.not-nil (subst (Memᴰ x) e (select-mem p xs m h)))
    | inr h ↦ h
  ]

  -- Where no element passes, the selection is empty.
  pub select-eq-nil : (p : A → Bool) (xs : List A) → All (λ x. p x ≡ false) xs → select p xs ≡ []
  select-eq-nil p [] h = refl
  select-eq-nil p (y ∷ ys) h =
      rw (h y (Memᴰ.head refl)) (select-eq-nil p ys (λ x m. h x (Memᴰ.tail m)))

  pub exists-false : (p : A → Bool) (xs : List A) → exists p xs ≡ false → All (λ x. p x ≡ false) xs
  exists-false p [] e x m = elim m [ ]
  exists-false p (y ∷ ys) e x (Memᴰ.head q) = rw q (ground arith)
  exists-false p (y ∷ ys) e x (Memᴰ.tail t) = exists-false p ys (ground arith) x t

  pub exists-mem :
      (p : A → Bool) (xs : List A) → exists p xs ≡ true → (x : A) × Memᴰ x xs × (p x ≡ true)
  exists-mem p [] e = cc
  exists-mem p (y ∷ ys) e = elim (Bool-cases (p y)) [
    | inl h ↦ (y, Memᴰ.head refl, h)
    | inr h ↦ let (x, m, q) = exists-mem p ys (ground arith) in (x, Memᴰ.tail m, q)
  ]

  pub mem-exists :
      (p : A → Bool) {x : A} (xs : List A) → Memᴰ x xs → p x ≡ true → exists p xs ≡ true
  mem-exists p [] m e = elim m [ ]
  mem-exists p (y ∷ ys) (Memᴰ.head q) e = rw (subst (λ z. p z ≡ true) q e)
  mem-exists p (y ∷ ys) (Memᴰ.tail t) e = ground (arith, mem-exists p ys t e)

  pub mem-first : {x : A} (xs : List A) → first xs ≡ some x → Memᴰ x xs
  mem-first [] e = cc
  mem-first (y ∷ ys) e = Memᴰ.head (cc)

  pub mem-append : {x : A} (xs ys : List A) → Memᴰ x (xs ++ ys) → Memᴰ x xs ⊎ Memᴰ x ys
  mem-append [] ys m = inr m
  mem-append (y ∷ xs) ys (Memᴰ.head q) = inl (Memᴰ.head q)
  mem-append (y ∷ xs) ys (Memᴰ.tail t) = elim (mem-append xs ys t) [
    | inl m ↦ inl (Memᴰ.tail m)
    | inr m ↦ inr m
  ]

  pub append-mem_left : {x : A} (xs ys : List A) → Memᴰ x xs → Memᴰ x (xs ++ ys)
  append-mem_left [] ys m = elim m [ ]
  append-mem_left (y ∷ xs) ys (Memᴰ.head q) = Memᴰ.head q
  append-mem_left (y ∷ xs) ys (Memᴰ.tail t) = Memᴰ.tail (append-mem_left xs ys t)

  pub append-mem_right : {x : A} (xs ys : List A) → Memᴰ x ys → Memᴰ x (xs ++ ys)
  append-mem_right [] ys m = m
  append-mem_right (y ∷ xs) ys m = Memᴰ.tail (append-mem_right xs ys m)

  pub mem-singleton : {x y : A} → Memᴰ x (y ∷ []) → x ≡ y
  mem-singleton (Memᴰ.head q) = q
  mem-singleton (Memᴰ.tail t) = elim t [ ]

  pub length-append : (xs ys : List A) → length (xs ++ ys) ≡ length xs + length ys
  length-append [] ys = omega arith
  length-append (x ∷ xs) ys = omega (arith, length-append xs ys)

  pub length-select : (p : A → Bool) (xs : List A) → length (select p xs) ≤ length xs
  length-select p [] = omega arith
  length-select p (x ∷ xs) = ground (arith, length-select p xs)

  pub length-take : (n : ℕ) (xs : List A) → length (take n xs) ≤ n
  length-take zero xs = omega arith
  length-take (suc n) [] = omega arith
  length-take (suc n) (x ∷ xs) = omega (arith, length-take n xs)

  pub mem-take : (n : ℕ) {x : A} (xs : List A) → Memᴰ x (take n xs) → Memᴰ x xs
  mem-take zero xs m = elim m [ ]
  mem-take (suc n) [] m = elim m [ ]
  mem-take (suc n) (y ∷ ys) (Memᴰ.head q) = Memᴰ.head q
  mem-take (suc n) (y ∷ ys) (Memᴰ.tail t) = Memᴰ.tail (mem-take n ys t)

module _ {ℓ κ} {A : Type ℓ} {B : Type κ} where
  pub mem-map :
      (f : A → B) {y : B} (xs : List A) → Memᴰ y (map f xs) → (x : A) × Memᴰ x xs × (y ≡ f x)
  mem-map f [] m = elim m [ ]
  mem-map f (x ∷ xs) (Memᴰ.head q) = (x, Memᴰ.head refl, q)
  mem-map f (x ∷ xs) (Memᴰ.tail t) = let (z, m, q) = mem-map f xs t in (z, Memᴰ.tail m, q)

  pub map-mem : (f : A → B) {x : A} (xs : List A) → Memᴰ x xs → Memᴰ (f x) (map f xs)
  map-mem f [] m = elim m [ ]
  map-mem f (y ∷ ys) (Memᴰ.head q) = Memᴰ.head (ap f q)
  map-mem f (y ∷ ys) (Memᴰ.tail t) = Memᴰ.tail (map-mem f ys t)

  pub length-map : (f : A → B) (xs : List A) → length (map f xs) ≡ length xs
  length-map f [] = refl
  length-map f (x ∷ xs) = ap suc (length-map f xs)
