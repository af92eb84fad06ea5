-- ===== src/Playlists/Creating.antt =====
-- The loops of apps/playlists/services.py that create the items of one playlist.
use brandy_manager_back.Prelude.{
  ℕ, ◌+◌, ◌≡◌, ◌≢◌, refl, sym, ap, ◌∙◌, subst, List, [], ◌∷◌, arith, ◌⊎◌, inl, inr, Memᴰ, All,
  length, mem-append, mem-singleton,
}
use brandy_manager_back.Result.{ok}
use brandy_manager_back.Models.Playlists.{PlaylistItem}
use brandy_manager_back.Playlists.Items.{create_item, create_items}
use brandy_manager_back.Playlists.Constraints.{
  IsConstrained, count, create_item-ok, create_item-IsConstrained, count-insert_self,
  count-insert_other,
}
use brandy_manager_back.Playlists.Numbering.{then-ok}

-- What such a loop does to the table.
pub record Adds (p : ℕ) (is xs ys : List PlaylistItem) : Type 0 where
  pub constrained : IsConstrained ys
  pub own : count p ys ≡ count p xs + length is
  pub others : (q : ℕ) → q ≢ p → count q ys ≡ count q xs
  pub rows : (z : PlaylistItem) → Memᴰ z ys → Memᴰ z xs ⊎ Memᴰ z is

create_item-Adds :
    (p : ℕ) (i : PlaylistItem) (xs : List PlaylistItem) {ys : List PlaylistItem}
    → create_item i xs ≡ ok ys
    → i.playlist ≡ p
    → IsConstrained xs
    → Adds p (i ∷ []) xs ys
create_item-Adds p i xs {ys} h e c =
    let (fresh, free, q) = create_item-ok i xs h in
    record {
      constrained = create_item-IsConstrained i xs h c;
      own =
          subst (λ k. count k ys ≡ count k xs + 1) e
            (ap (count i.playlist) q ∙ count-insert_self i xs ∙ omega arith);
      others = λ k d. ap (count k) q ∙ count-insert_other k i xs (λ t. d (sym t ∙ e));
      rows = λ z m. mem-append xs (i ∷ []) (subst (Memᴰ z) q m);
    }

pub create_items-Adds :
    (p : ℕ) (is xs : List PlaylistItem) {ys : List PlaylistItem}
    → create_items is xs ≡ ok ys
    → All (λ i. i.playlist ≡ p) is
    → IsConstrained xs
    → Adds p is xs ys
unfolding create_items
create_items-Adds p [] xs {ys} h e c =
    subst (Adds p [] xs) (ground arith)
      (record { constrained = c; own = omega arith; others = λ q d. refl; rows = λ z m. inl m })
create_items-Adds p (i ∷ is) xs {ys} h e c =
    let (mid, f, g) = then-ok {r = create_item i xs} h in
    let one = create_item-Adds p i xs f (e i (Memᴰ.head refl)) c in
    let rest = create_items-Adds p is mid g (λ j m. e j (Memᴰ.tail m)) one.constrained in
    record {
      constrained = rest.constrained;
      own = omega (arith, rest.own, one.own);
      others = λ q d. rest.others q d ∙ one.others q d;
      rows = λ z m. elim (rest.rows z m) [
        | inr t ↦ inr (Memᴰ.tail t)
        | inl t ↦ elim (one.rows z t) [ inl u ↦ inl u | inr u ↦ inr (Memᴰ.head (mem-singleton u)) ]
      ];
    }
