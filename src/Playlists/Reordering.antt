-- ===== src/Playlists/Reordering.antt =====
-- A reordering of a playlist keeps its numbering (apps/playlists/services.py, `reorder_playlist_items`).
use brandy_manager_back.Prelude.{
  ℕ, ◌≡◌, ◌≢◌, sym, ap, ◌∙◌, subst, List, [], ◌∷◌, map, true, arith, inr, Memᴰ, length, ◌==◌,
  map-mem, mem-map, exists-mem, ==→eq, length-map,
}
use brandy_manager_back.Result.{ok}
use brandy_manager_back.Table.{HasUniqueKeys}
use brandy_manager_back.Models.Playlists.{PlaylistItem, playlist_item_row}
use brandy_manager_back.Playlists.Items.{ordered_items, number_items, is_reordering, is_subset}
use brandy_manager_back.Playlists.Constraints.{IsConstrained, count}
use brandy_manager_back.Playlists.Numbering.{
  Keeps, Keeps-trans, number_items-Keeps, number_items-bounds, number_items-rest,
}
use brandy_manager_back.Playlists.Numbered.{Touches, ordered-mem, mem-ordered, length-ordered}

-- What an accepted order says: the keys given are those of the playlist, and as many.
is_subset-mem : (xs ys : List ℕ) → is_subset xs ys ≡ true → {x : ℕ} → Memᴰ x xs → Memᴰ x ys
unfolding is_subset
is_subset-mem [] ys h m = elim m [ ]
is_subset-mem (x ∷ xs) ys h (Memᴰ.head q) =
    let (y, my, e) = exists-mem (λ y. y == x) ys (ground arith) in
    subst (λ k. Memᴰ k ys) (ground (arith, e, q)) my
is_subset-mem (x ∷ xs) ys h (Memᴰ.tail t) = is_subset-mem xs ys (ground arith) t

pub record Covers (p : ℕ) (xs : List PlaylistItem) (ks : List ℕ) : Type 0 where
  pub all : (z : PlaylistItem) → Memᴰ z xs → z.playlist ≡ p → Memᴰ z.id ks
  pub only : {k : ℕ} → Memᴰ k ks → (i : PlaylistItem) × Memᴰ i xs × (i.playlist ≡ p) × (i.id ≡ k)
  pub size : length ks ≡ count p xs

pub is_reordering-Covers :
    (p : ℕ) (xs : List PlaylistItem) (ks : List ℕ)
    → is_reordering (map (λ i. i.id) (ordered_items p xs)) ks ≡ true
    → Covers p xs ks
unfolding is_reordering
is_reordering-Covers p xs ks h =
    let current = map (λ i. i.id) (ordered_items p xs) in
    record {
      all = λ z m e.
          is_subset-mem current ks (ground arith)
            (map-mem (λ i. i.id) (ordered_items p xs) (ordered-mem p xs m e));
      only = λ {k} m.
          let (i, mi, q) =
            mem-map (λ i. i.id) (ordered_items p xs) (is_subset-mem ks current (ground arith) m) in
          (i, (mem-ordered p xs mi).0, (mem-ordered p xs mi).1, sym q);
      size = omega (
        arith,
        length-map (λ i. i.id) (ordered_items p xs),
        length-ordered p xs,
        ==→eq (length current) (length ks) (ground arith),
      );
    }

-- The keys cover the playlist after a loop too.
pub Keeps-Covers :
    {p : ℕ} {xs ys : List PlaylistItem} {ks : List ℕ}
    → Keeps xs ys
    → Covers p xs ks
    → (z : PlaylistItem) → Memᴰ z ys
    → z.playlist ≡ p
    → Memᴰ z.id ks
Keeps-Covers {ks = ks} k c z m e =
    let (y, my, ei, ep) = k.origin z m in subst (λ j. Memᴰ j ks) (sym ei) (c.all y my (sym ep ∙ e))

-- A row of another playlist has no such key.
Covers-apart :
    {p : ℕ} {xs ys : List PlaylistItem} {ks : List ℕ}
    → Covers p xs ks
    → HasUniqueKeys xs
    → Keeps xs ys
    → (z : PlaylistItem) → Memᴰ z ys
    → z.playlist ≢ p
    → Memᴰ z.id ks
    → ⊥
Covers-apart c u k z m d t =
    let (i, mi, ep, ei) = c.only t in
    let (y, my, fi, fp) = k.origin z m in
    d (fp ∙ ap (λ w. w.playlist) (u y i my mi (sym fi ∙ sym ei)) ∙ ep)

-- Both loops of a reordering.
pub reordered-Touches :
    (p : ℕ) (ks : List ℕ) (xs : List PlaylistItem) {mid ys : List PlaylistItem}
    → number_items 100001 ks xs ≡ ok mid
    → number_items 1 ks mid ≡ ok ys
    → Covers p xs ks
    → IsConstrained xs
    → Touches p xs ys
reordered-Touches p ks xs {mid} {ys} f g cover c =
    let first = number_items-Keeps 100001 ks xs f c in
    let second = number_items-Keeps 1 ks mid g first.constrained in
    record {
      constrained = second.constrained;
      own = λ z m e.
          let (l, u) = number_items-bounds 1 1 ks mid g (omega arith) z m (λ y my ey. inr (
            subst (λ j. Memᴰ j ks) (sym ey)
              (Keeps-Covers (Keeps-trans first second) cover z m e))) in
          (l, omega (arith, u, cover.size, first.counts p, second.counts p));
      counts = λ q d. second.counts q ∙ first.counts q;
      others = λ z m d.
          let m' =
            number_items-rest 1 ks mid g z m
              (Covers-apart cover c.keys (Keeps-trans first second) z m d) in
          number_items-rest 100001 ks xs f z m' (Covers-apart cover c.keys first z m' d);
    }
