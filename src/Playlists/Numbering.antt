-- ===== src/Playlists/Numbering.antt =====
-- The loops of apps/playlists/services.py that number the items of a playlist.
use brandy_manager_back.Prelude.{
  ℕ, suc, ◌+◌, ◌≤◌, ◌<◌, ◌≡◌, refl, ap, ◌∙◌, subst, List, [], ◌∷◌, arith, ◌⊎◌, inl, inr, Memᴰ,
  length,
}
use brandy_manager_back.Result.{Result, ok, err}
use brandy_manager_back.Models.Playlists.{PlaylistItem}
use brandy_manager_back.Playlists.Items.{save_position, number_items, then_items}
use brandy_manager_back.Playlists.Constraints.{
  IsConstrained, count, mem-moved, count-moved, save_position-ok, save_position-IsConstrained,
}

-- What a loop keeps: the constraints, the number of items of every playlist, and for every row the
-- playlist of its key.
pub record Keeps (xs ys : List PlaylistItem) : Type 0 where
  pub constrained : IsConstrained ys
  pub counts : (p : ℕ) → count p ys ≡ count p xs
  pub origin :
      (z : PlaylistItem)
      → Memᴰ z ys
      → (y : PlaylistItem) × Memᴰ y xs × (z.id ≡ y.id) × (z.playlist ≡ y.playlist)

pub Keeps-refl : {xs : List PlaylistItem} → IsConstrained xs → Keeps xs xs
Keeps-refl c = record { constrained = c; counts = λ p. refl; origin = λ z m. (z, m, refl, refl) }

pub Keeps-trans : {xs ys zs : List PlaylistItem} → Keeps xs ys → Keeps ys zs → Keeps xs zs
Keeps-trans a b = record {
  constrained = b.constrained;
  counts = λ p. b.counts p ∙ a.counts p;
  origin = λ z m.
      let (y, my, e, f) = b.origin z m in
      let (x, mx, e', f') = a.origin y my in (x, mx, e ∙ e', f ∙ f');
}

pub save_position-Keeps :
    (k position : ℕ) (xs : List PlaylistItem) {ys : List PlaylistItem}
    → save_position k position xs ≡ ok ys
    → IsConstrained xs
    → Keeps xs ys
save_position-Keeps k position xs h c =
    let (i, mi, ei, free, q) = save_position-ok k position xs h in
    record {
      constrained = save_position-IsConstrained k position xs h c;
      counts = λ p. ap (count p) q ∙ count-moved p k position xs;
      origin = λ z m. elim (mem-moved k position xs (subst (Memᴰ z) q m)) [
        | inl (n, d) ↦ (z, n, refl, refl)
        | inr (y, n, e, f) ↦ (y, n, ap (λ w. w.id) f, ap (λ w. w.playlist) f)
      ];
    }

-- A loop that ran, ran its first statement and then its rest.
pub then-ok :
    {r : Result (List PlaylistItem)} {f : List PlaylistItem → Result (List PlaylistItem)}
    {ys : List PlaylistItem}
    → then_items r f ≡ ok ys
    → (xs : List PlaylistItem) × (r ≡ ok xs) × (f xs ≡ ok ys)
then-ok {r = ok xs} h = (xs, refl, h)
then-ok {r = err e} h = absurd (ground arith)

pub number_items-Keeps :
    (n : ℕ) (ks : List ℕ) (xs : List PlaylistItem) {ys : List PlaylistItem}
    → number_items n ks xs ≡ ok ys
    → IsConstrained xs
    → Keeps xs ys
unfolding number_items
number_items-Keeps n [] xs h c = subst (Keeps xs) (ground arith) (Keeps-refl c)
number_items-Keeps n (k ∷ ks) xs h c =
    let (mid, e, f) = then-ok {r = save_position k n xs} h in
    let first = save_position-Keeps k n xs e c in
    Keeps-trans first (number_items-Keeps (suc n) ks mid f first.constrained)

-- Every row whose key is in the list gets a number of the run; the others are left alone.
pub number_items-bounds :
    (lo n : ℕ) (ks : List ℕ) (xs : List PlaylistItem) {ys : List PlaylistItem}
    → number_items n ks xs ≡ ok ys
    → lo ≤ n
    → (z : PlaylistItem) → Memᴰ z ys
    → ((y : PlaylistItem)
        → Memᴰ y xs
        → y.id ≡ z.id
        → (lo ≤ y.position × (y.position < n)) ⊎ Memᴰ y.id ks)
    → lo ≤ z.position × (z.position < n + length ks)
unfolding number_items
number_items-bounds lo n [] xs {ys} h l z m inv =
    elim (inv z (subst (Memᴰ z) (ground arith) m) refl) [
      | inl b ↦ (b.0, omega (arith, b.1))
      | inr t ↦ elim t [ ]
    ]
number_items-bounds lo n (k ∷ ks) xs {ys} h l z m inv =
    let (mid, e, f) = then-ok {r = save_position k n xs} h in
    let (i, mi, ei, free, q) = save_position-ok k n xs e in
    let ih = number_items-bounds lo (suc n) ks mid f (omega arith) z m (λ y my ey.
      elim (mem-moved k n xs (subst (Memᴰ y) q my)) [
        | inl (ny, dy) ↦ elim (inv y ny ey) [
          | inl b ↦ inl (b.0, omega (arith, b.1))
          | inr (Memᴰ.head t) ↦ absurd (dy t)
          | inr (Memᴰ.tail t) ↦ inr t
        ]
        | inr (w, mw, ew, qw) ↦
            inl (ground (arith, ap (λ v. v.position) qw), ground (arith, ap (λ v. v.position) qw))
      ]) in
    (ih.0, omega (arith, ih.1))

-- A row whose key is not in the list is an old row.
pub number_items-rest :
    (n : ℕ) (ks : List ℕ) (xs : List PlaylistItem) {ys : List PlaylistItem}
    → number_items n ks xs ≡ ok ys
    → (z : PlaylistItem) → Memᴰ z ys
    → (Memᴰ z.id ks → ⊥)
    → Memᴰ z xs
unfolding number_items
number_items-rest n [] xs h z m d = subst (Memᴰ z) (ground arith) m
number_items-rest n (k ∷ ks) xs h z m d =
    let (mid, e, f) = then-ok {r = save_position k n xs} h in
    let (i, mi, ei, free, q) = save_position-ok k n xs e in
    let mm = number_items-rest (suc n) ks mid f z m (λ t. d (Memᴰ.tail t)) in
    elim (mem-moved k n xs (subst (Memᴰ z) q mm)) [
      | inl (nz, dz) ↦ nz
      | inr (y, my, ey, qy) ↦ absurd (d (Memᴰ.head (ap (λ w. w.id) qy ∙ ey)))
    ]
