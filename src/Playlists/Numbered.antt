-- ===== src/Playlists/Numbered.antt =====
-- The items of a playlist are numbered from 1 to their count: what each operation of
-- apps/playlists/services.py does to the table of items.
use brandy_manager_back.Prelude.{
  ℕ, ◌+◌, ◌≤◌, ◌≡◌, ◌≢◌, refl, ap, ◌∙◌, subst, List, [], ◌∷◌, true, not, arith, inl, inr, Memᴰ, All,
  length, select, ◌==◌, mem-select, select-mem, mem-sort_by, sort_by-mem, length-sort_by,
  mem-singleton, Bool-cases,
}
use brandy_manager_back.Result.{ok}
use brandy_manager_back.Models.Playlists.{PlaylistItem, playlist_item_row}
use brandy_manager_back.Playlists.Items.{
  of_playlist, earlier_item, ordered_items, create_item, create_items, max_position,
}
use brandy_manager_back.Playlists.Constraints.{IsConstrained, count, subset-IsConstrained}
use brandy_manager_back.Playlists.Creating.{create_items-Adds}

-- The positions of a playlist are from 1 to the number of its items.
abbrev pub InRange : ℕ → List PlaylistItem → Type 0
InRange p xs = All (λ z. z.playlist ≡ p → 1 ≤ z.position × (z.position ≤ count p xs)) xs

-- With the constraints, every position from 1 to that number is held once.
pub record IsNumbered (xs : List PlaylistItem) : Type 0 where
  pub constrained : IsConstrained xs
  pub range : (p : ℕ) → InRange p xs

-- An operation on one playlist, which leaves the others alone.
pub record Touches (p : ℕ) (xs ys : List PlaylistItem) : Type 0 where
  pub constrained : IsConstrained ys
  pub own : InRange p ys
  pub counts : (q : ℕ) → q ≢ p → count q ys ≡ count q xs
  pub others : (z : PlaylistItem) → Memᴰ z ys → z.playlist ≢ p → Memᴰ z xs

pub Touches-IsNumbered :
    {p : ℕ} {xs ys : List PlaylistItem} → Touches p xs ys → IsNumbered xs → IsNumbered ys
Touches-IsNumbered {p} {xs} {ys} t n = record {
  constrained = t.constrained;
  range = λ q. elim (Bool-cases (q == p)) [
    | inl h ↦ subst (λ k. InRange k ys) (ground arith) t.own
    | inr h ↦ λ z m e.
        let (l, u) = n.range q z (t.others z m (ground arith)) e in
        (l, omega (arith, u, t.counts q (ground arith)))
  ];
}

count-zero : (p : ℕ) (xs : List PlaylistItem) → count p (select (λ i. not (of_playlist p i)) xs) ≡ 0
count-zero p [] = refl
count-zero p (x ∷ xs) = ground (arith, count-zero p xs)

count-dropped :
    (p q : ℕ) (xs : List PlaylistItem)
    → q ≢ p
    → count q (select (λ i. not (of_playlist p i)) xs) ≡ count q xs
count-dropped p q [] d = refl
count-dropped p q (x ∷ xs) d = ground (arith, count-dropped p q xs d)

-- `playlist.items.all().delete()`, and new items in the range of their number.
pub replaced-Touches :
    (p : ℕ) (is xs : List PlaylistItem) {ys : List PlaylistItem}
    → create_items is (select (λ i. not (of_playlist p i)) xs) ≡ ok ys
    → All (λ i. i.playlist ≡ p) is
    → All (λ i. 1 ≤ i.position × (i.position ≤ length is)) is
    → IsConstrained xs
    → Touches p xs ys
replaced-Touches p is xs h own range c =
    let left = select (λ i. not (of_playlist p i)) xs in
    let old : (z : PlaylistItem) → Memᴰ z left → Memᴰ z xs × (not (of_playlist p z) ≡ true) =
      λ z m. mem-select (λ i. not (of_playlist p i)) xs m in
    let added = create_items-Adds p is left h own (subset-IsConstrained c (λ z m. (old z m).0)) in
    record {
      constrained = added.constrained;
      own = λ z m e. elim (added.rows z m) [
        | inl t ↦ absurd (ground (arith, (old z t).1))
        | inr t ↦ ((range z t).0, omega (arith, (range z t).1, added.own, count-zero p xs))
      ];
      counts = λ q d. added.others q d ∙ count-dropped p q xs d;
      others =
          λ z m d. elim (added.rows z m) [ inl t ↦ (old z t).0 | inr t ↦ absurd (d (own z t)) ];
    }

-- New items of a playlist that has none.
pub copied-Touches :
    (p : ℕ) (is xs : List PlaylistItem) {ys : List PlaylistItem}
    → create_items is xs ≡ ok ys
    → All (λ i. i.playlist ≡ p) is
    → All (λ i. 1 ≤ i.position × (i.position ≤ length is)) is
    → All (λ z. z.playlist ≢ p) xs
    → IsConstrained xs
    → Touches p xs ys
copied-Touches p is xs h own range none_yet c =
    let added = create_items-Adds p is xs h own c in
    record {
      constrained = added.constrained;
      own = λ z m e. elim (added.rows z m) [
        | inl t ↦ absurd (none_yet z t e)
        | inr t ↦ ((range z t).0, omega (arith, (range z t).1, added.own))
      ];
      counts = added.others;
      others = λ z m d. elim (added.rows z m) [ inl t ↦ t | inr t ↦ absurd (d (own z t)) ];
    }

max_position-le :
    (n : ℕ) (xs : List PlaylistItem) → All (λ z. z.position ≤ n) xs → max_position xs ≤ n
unfolding max_position
max_position-le n [] h = omega arith
max_position-le n (x ∷ xs) h =
    ground (arith, max_position-le n xs (λ z m. h z (Memᴰ.tail m)), h x (Memᴰ.head refl))

-- One more item, after the last.
pub added-Touches :
    (i : PlaylistItem) (xs : List PlaylistItem) {ys : List PlaylistItem}
    → create_item i xs ≡ ok ys
    → i.position ≡ max_position (select (of_playlist i.playlist) xs) + 1
    → IsNumbered xs
    → Touches i.playlist xs ys
unfolding create_items
added-Touches i xs {ys} h e n =
    let p = i.playlist in
    let top =
      max_position-le (count p xs) (select (of_playlist p) xs) (λ z m.
        let (mz, o) = mem-select (of_playlist p) xs m in (n.range p z mz (ground arith)).1) in
    let added =
      create_items-Adds p (i ∷ []) xs {ys = ys} (ground (arith, h))
        (λ j m. ap (λ w. w.playlist) (mem-singleton m)) n.constrained in
    record {
      constrained = added.constrained;
      own = λ z m q. elim (added.rows z m) [
        | inl t ↦ ((n.range p z t q).0, omega (arith, (n.range p z t q).1, added.own))
        | inr t ↦ (
          omega (arith, e, ap (λ w. w.position) (mem-singleton t)),
          omega (arith, e, ap (λ w. w.position) (mem-singleton t), top, added.own),
        )
      ];
      counts = added.others;
      others = λ z m d. elim (added.rows z m) [
        | inl t ↦ t
        | inr t ↦ absurd (d (ap (λ w. w.playlist) (mem-singleton t)))
      ];
    }

-- The items of a playlist in their order.
pub ordered-mem :
    (p : ℕ) (xs : List PlaylistItem) {z : PlaylistItem}
    → Memᴰ z xs
    → z.playlist ≡ p
    → Memᴰ z (ordered_items p xs)
unfolding ordered_items
ordered-mem p xs {z} m e =
    sort_by-mem earlier_item (select (of_playlist p) xs)
      (select-mem (of_playlist p) xs m (ground arith))

pub mem-ordered :
    (p : ℕ) (xs : List PlaylistItem) {z : PlaylistItem}
    → Memᴰ z (ordered_items p xs)
    → Memᴰ z xs × (z.playlist ≡ p)
unfolding ordered_items
mem-ordered p xs {z} m =
    let (n, o) =
      mem-select (of_playlist p) xs (mem-sort_by earlier_item (select (of_playlist p) xs) m) in
    (n, ground (arith, o))

pub length-ordered : (p : ℕ) (xs : List PlaylistItem) → length (ordered_items p xs) ≡ count p xs
unfolding ordered_items
length-ordered p xs = length-sort_by earlier_item (select (of_playlist p) xs)
