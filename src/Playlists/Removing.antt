-- ===== src/Playlists/Removing.antt =====
-- Removing an item keeps the numbering (apps/playlists/services.py, `remove_playlist_item`).
use brandy_manager_back.Prelude.{
  ℕ, ◌≡◌, ◌≢◌, refl, sym, ap, ◌∙◌, subst, List, [], ◌∷◌, arith, inl, inr, Memᴰ, ◌==◌, Bool-cases,
}
use brandy_manager_back.Result.{ok}
use brandy_manager_back.Table.{delete, HasUniqueKeys, mem-delete}
use brandy_manager_back.Models.Playlists.{PlaylistItem, playlist_item_row}
use brandy_manager_back.Playlists.Items.{ordered_items, renumber}
use brandy_manager_back.Playlists.Constraints.{IsConstrained, count, subset-IsConstrained}
use brandy_manager_back.Playlists.Renumbering.{renumber-Keeps, renumber-bounds, renumber-rest}
use brandy_manager_back.Playlists.Numbered.{Touches, ordered-mem, mem-ordered, length-ordered}

count-delete :
    (p : ℕ) (i : PlaylistItem) (xs : List PlaylistItem)
    → HasUniqueKeys (i ∷ xs)
    → i.playlist ≢ p
    → count p (delete i.id xs) ≡ count p xs
count-delete p i [] u d = refl
count-delete p i (x ∷ xs) u d =
    let rest = count-delete p i xs (λ a b ma mb. u a b (skip ma) (skip mb)) d in
    elim (Bool-cases (x.id == i.id)) [
      | inl h ↦ ground (
        arith,
        rest,
        ap (λ w. w.playlist) (u x i (Memᴰ.tail (Memᴰ.head refl)) (Memᴰ.head refl) (ground arith)),
      )
      | inr h ↦ ground (arith, rest)
    ]
  where
    skip : {a : PlaylistItem} → Memᴰ a (i ∷ xs) → Memᴰ a (i ∷ x ∷ xs)
    skip (Memᴰ.head q) = Memᴰ.head q
    skip (Memᴰ.tail t) = Memᴰ.tail (Memᴰ.tail t)

-- One item less, and the gap closed.
pub removed-Touches :
    (p k : ℕ) (i : PlaylistItem) (xs : List PlaylistItem) {ys : List PlaylistItem}
    → renumber 1 (ordered_items p (delete k xs)) (delete k xs) ≡ ok ys
    → Memᴰ i xs
    → i.id ≡ k
    → i.playlist ≡ p
    → IsConstrained xs
    → Touches p xs ys
removed-Touches p k i xs {ys} h mi ei ep c =
    let left = delete k xs in
    let old : (z : PlaylistItem) → Memᴰ z left → Memᴰ z xs = λ z m. (mem-delete k xs m).0 in
    let base = subset-IsConstrained {xs = xs} {ys = left} c old in
    let visited = ordered_items p left in
    let loop = renumber-Keeps 1 visited left h base in
    record {
      constrained = loop.constrained;
      own = λ z m e.
          let (l, u) = renumber-bounds 1 1 visited left h (omega arith) z m (λ y my ey.
            let (x, mx, fi, fp) = loop.origin z m in
            let same = base.keys y x my mx (ey ∙ fi) in
            inr (y, ordered-mem p left my (ap (λ w. w.playlist) same ∙ sym fp ∙ e), refl, refl)) in
          (l, omega (arith, u, length-ordered p left, loop.counts p));
      counts = λ q d.
          loop.counts q
          ∙ subst (λ j. count q (delete j xs) ≡ count q xs) ei
              (count-delete q i xs (λ a b ma mb. c.keys a b (inside ma) (inside mb))
                (λ t. d (sym t ∙ ep)));
      others = λ z m d. old z (
          renumber-rest 1 visited left h z m (λ v mv ev.
            let (x, mx, fi, fp) = loop.origin z m in
            let (nv, pv) = mem-ordered p left mv in
            d (fp ∙ ap (λ w. w.playlist) (base.keys x v mx nv (sym fi ∙ sym ev)) ∙ pv)));
    }
  where
    inside : {a : PlaylistItem} → Memᴰ a (i ∷ xs) → Memᴰ a xs
    inside (Memᴰ.head q) = subst (λ w. Memᴰ w xs) (sym q) mi
    inside (Memᴰ.tail t) = t
