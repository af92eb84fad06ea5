-- ===== src/Prelude/Sorting.antt =====
-- What Python's `sorted` promises, of the stable sort `sort_by`.
use brandy_manager_back.Prelude.Tests.{if◌then◌else◌, Bool-cases}
use brandy_manager_back.Prelude.Lists.{first, insert_by, sort_by, length}
use Prim.Native.Nat.{suc}
use mathlib.Core.Path.{◌≡◌, refl, ap, ◌∙◌, subst}
use mathlib.Core.Logic.{inl, inr}
use mathlib.Core.Bool.{Bool, true, false}
use mathlib.Core.Option.{some}
use mathlib.Core.List.{List, [], ◌∷◌, Memᴰ}
use native.Mathlib.Omega.{arith}

-- The laws of a key order: it is asymmetric, and not being ahead is transitive.
pub record IsKeyOrder {ℓ} {A : Type ℓ} (before : A → A → Bool) : Type ℓ where
  pub asym : (x y : A) → before x y ≡ true → before y x ≡ false
  pub neg_trans : (x y z : A) → before x y ≡ false → before y z ≡ false → before x z ≡ false

-- No later element is ahead of an earlier one.
abbrev pub IsSorted {ℓ} : {A : Type ℓ} → (A → A → Bool) → List A → Type ℓ
IsSorted before [] = Unit
IsSorted {A} before (x ∷ xs) = ((y : A) → Memᴰ y xs → before y x ≡ false) × IsSorted before xs

module _ {ℓ} {A : Type ℓ} (before : A → A → Bool) where
  pub mem-insert_by :
      (x : A) {z : A} (ys : List A) → Memᴰ z (insert_by before x ys) → Memᴰ z (x ∷ ys)
  unfolding insert_by
  mem-insert_by x [] m = m
  mem-insert_by x {z} (y ∷ ys) m = go (before y x) m (mem-insert_by x ys)
    where
      go :
          (b : Bool)
          → Memᴰ z (if b then y ∷ insert_by before x ys else x ∷ y ∷ ys)
          → (Memᴰ z (insert_by before x ys) → Memᴰ z (x ∷ ys))
          → Memᴰ z (x ∷ y ∷ ys)
      go true (Memᴰ.head q) ih = Memᴰ.tail (Memᴰ.head q)
      go true (Memᴰ.tail t) ih = elim (ih t) [
        | Memᴰ.head q ↦ Memᴰ.head q
        | Memᴰ.tail u ↦ Memᴰ.tail (Memᴰ.tail u)
      ]
      go false m' ih = m'

  pub insert_by-mem :
      (x : A) {z : A} (ys : List A) → Memᴰ z (x ∷ ys) → Memᴰ z (insert_by before x ys)
  unfolding insert_by
  insert_by-mem x [] m = m
  insert_by-mem x {z} (y ∷ ys) m = go (before y x) m (insert_by-mem x ys)
    where
      go :
          (b : Bool)
          → Memᴰ z (x ∷ y ∷ ys)
          → (Memᴰ z (x ∷ ys) → Memᴰ z (insert_by before x ys))
          → Memᴰ z (if b then y ∷ insert_by before x ys else x ∷ y ∷ ys)
      go true (Memᴰ.head q) ih = Memᴰ.tail (ih (Memᴰ.head q))
      go true (Memᴰ.tail (Memᴰ.head q)) ih = Memᴰ.head q
      go true (Memᴰ.tail (Memᴰ.tail t)) ih = Memᴰ.tail (ih (Memᴰ.tail t))
      go false m' ih = m'

  pub mem-sort_by : {z : A} (xs : List A) → Memᴰ z (sort_by before xs) → Memᴰ z xs
  unfolding sort_by
  mem-sort_by [] m = m
  mem-sort_by (x ∷ xs) m = elim (mem-insert_by x (sort_by before xs) m) [
    | Memᴰ.head q ↦ Memᴰ.head q
    | Memᴰ.tail t ↦ Memᴰ.tail (mem-sort_by xs t)
  ]

  pub sort_by-mem : {z : A} (xs : List A) → Memᴰ z xs → Memᴰ z (sort_by before xs)
  unfolding sort_by
  sort_by-mem [] m = elim m [ ]
  sort_by-mem (x ∷ xs) (Memᴰ.head q) = insert_by-mem x (sort_by before xs) (Memᴰ.head q)
  sort_by-mem (x ∷ xs) (Memᴰ.tail t) =
      insert_by-mem x (sort_by before xs) (Memᴰ.tail (sort_by-mem xs t))

  pub length-insert_by : (x : A) (ys : List A) → length (insert_by before x ys) ≡ suc (length ys)
  unfolding insert_by
  length-insert_by x [] = refl
  length-insert_by x (y ∷ ys) = ground (arith, length-insert_by x ys)

  pub length-sort_by : (xs : List A) → length (sort_by before xs) ≡ length xs
  unfolding sort_by
  length-sort_by [] = refl
  length-sort_by (x ∷ xs) = length-insert_by x (sort_by before xs) ∙ ap suc (length-sort_by xs)

  module _ (order : IsKeyOrder before) where
    insert_by-IsSorted :
        (x : A) (ys : List A) → IsSorted before ys → IsSorted before (insert_by before x ys)
    unfolding insert_by
    insert_by-IsSorted x [] s = ((λ y m. elim m [ ]), tt)
    insert_by-IsSorted x (y ∷ ys) s = go (before y x) refl (insert_by-IsSorted x ys s.1)
      where
        go :
            (b : Bool)
            → before y x ≡ b
            → IsSorted before (insert_by before x ys)
            → IsSorted before (if b then y ∷ insert_by before x ys else x ∷ y ∷ ys)
        go true e ih = (
          λ z m. elim (mem-insert_by x ys m) [
            | Memᴰ.head q ↦ rw q (order.asym y x e)
            | Memᴰ.tail t ↦ s.0 z t
          ],
          ih,
        )
        go false e ih = (
          λ z m. elim m [ Memᴰ.head q ↦ rw q e | Memᴰ.tail t ↦ order.neg_trans z y x (s.0 z t) e ],
          s,
        )

    pub sort_by-IsSorted : (xs : List A) → IsSorted before (sort_by before xs)
    unfolding sort_by
    sort_by-IsSorted [] = tt
    sort_by-IsSorted (x ∷ xs) = insert_by-IsSorted x (sort_by before xs) (sort_by-IsSorted xs)

    -- The first of a sorted list is behind no element.
    pub first-sort_by :
        {x : A} (xs : List A)
        → first (sort_by before xs) ≡ some x
        → (y : A) → Memᴰ y xs
        → before y x ≡ false
    first-sort_by {x} xs e y m = go (sort_by before xs) (sort_by-IsSorted xs) e (sort_by-mem xs m)
      where
        irrefl : before x x ≡ false
        irrefl = elim (Bool-cases (before x x)) [ inl h ↦ order.asym x x h | inr h ↦ h ]

        go : (l : List A) → IsSorted before l → first l ≡ some x → Memᴰ y l → before y x ≡ false
        go [] s f m' = elim m' [ ]
        go (z ∷ l) s f (Memᴰ.head q) = let p : z ≡ x = cc in rw (q ∙ p) irrefl
        go (z ∷ l) s f (Memᴰ.tail t) =
            let p : z ≡ x = cc in subst (λ w. before y w ≡ false) p (s.0 y t)
