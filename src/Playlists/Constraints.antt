-- ===== src/Playlists/Constraints.antt =====
-- The database's constraints on the items of playlists (apps/playlists/models.py), statement by statement.
use brandy_manager_back.Prelude.{
  ℕ, suc, ◌≡◌, ◌≢◌, refl, sym, ap, ◌∙◌, subst, List, [], ◌∷◌, false, not, ◌&&◌, arith, ◌==◌, Memᴰ,
  All, exists-false, select, length, mem-append, mem-singleton, Option-cases, Bool-cases, ◌⊎◌, inl,
  inr, none,
}
use brandy_manager_back.Result.{ok}
use brandy_manager_back.Table.{
  get, insert, update, HasUniqueKeys, mem-get, pk-get, get-eq-none, mem-update,
  update-HasUniqueKeys, insert-HasUniqueKeys,
}
use brandy_manager_back.Models.Playlists.{PlaylistItem, playlist_item_row}
use brandy_manager_back.Playlists.Items.{of_playlist, is_occupied, save_position, create_item}

-- No two items of a playlist are at one position.
abbrev pub HasUniquePositions : List PlaylistItem → Type 0
HasUniquePositions xs =
    (a b : PlaylistItem)
    → Memᴰ a xs
    → Memᴰ b xs
    → a.playlist ≡ b.playlist
    → a.position ≡ b.position
    → a ≡ b

pub record IsConstrained (xs : List PlaylistItem) : Type 0 where
  pub keys : HasUniqueKeys xs
  pub positions : HasUniquePositions xs

abbrev pub at : ℕ → PlaylistItem → PlaylistItem
at position i = record i { position = position }

abbrev pub moved : ℕ → ℕ → List PlaylistItem → List PlaylistItem
moved k position xs = update (λ j. j.id == k) (at position) xs

-- The number of items of a playlist.
abbrev pub count : ℕ → List PlaylistItem → ℕ
count p xs = length (select (of_playlist p) xs)

pub count-insert_self :
    (i : PlaylistItem) (xs : List PlaylistItem)
    → count i.playlist (insert i xs) ≡ suc (count i.playlist xs)
count-insert_self i [] = ground arith
count-insert_self i (x ∷ xs) = ground (arith, count-insert_self i xs)

pub count-insert_other :
    (p : ℕ) (i : PlaylistItem) (xs : List PlaylistItem)
    → i.playlist ≢ p
    → count p (insert i xs) ≡ count p xs
count-insert_other p i [] h = ground arith
count-insert_other p i (x ∷ xs) h = ground (arith, count-insert_other p i xs h)

pub count-moved :
    (p k position : ℕ) (xs : List PlaylistItem) → count p (moved k position xs) ≡ count p xs
count-moved p k position [] = refl
count-moved p k position (x ∷ xs) = ground (arith, count-moved p k position xs)

pub subset-IsConstrained :
    {xs ys : List PlaylistItem} → IsConstrained xs → All (λ z. Memᴰ z xs) ys → IsConstrained ys
subset-IsConstrained c s = record {
  keys = λ a b ma mb. c.keys a b (s a ma) (s b mb);
  positions = λ a b ma mb. c.positions a b (s a ma) (s b mb);
}

-- A row of the table after a move is an old row with another key, or the moved one.
pub mem-moved :
    (k position : ℕ) {z : PlaylistItem} (xs : List PlaylistItem)
    → Memᴰ z (moved k position xs)
    → (Memᴰ z xs × (z.id ≢ k)) ⊎ ((y : PlaylistItem) × Memᴰ y xs × (y.id ≡ k) × (z ≡ at position y))
mem-moved k position {z} xs m =
    let (y, my, q) = mem-update (λ j. j.id == k) (at position) xs m in
    elim (Bool-cases (y.id == k)) [
      | inl e ↦ inr (y, my, ground arith, ground (arith, q, e))
      | inr e ↦ inl (subst (λ w. Memᴰ w xs) (ground (arith, q, e)) my, ground (arith, q, e))
    ]

-- What a successful move is.
pub save_position-ok :
    (k position : ℕ) (xs : List PlaylistItem) {ys : List PlaylistItem}
    → save_position k position xs ≡ ok ys
    → (i : PlaylistItem) × Memᴰ i xs
      × (i.id ≡ k)
      × (is_occupied i.playlist position k xs ≡ false)
      × (ys ≡ moved k position xs)
unfolding save_position
save_position-ok k position xs {ys} h = elim (Option-cases (get k xs)) [
  | inl n ↦ absurd (ground (arith, n))
  | inr (i, l) ↦ (i, mem-get k xs l, pk-get k xs l, ground (arith, l), ground (arith, l))
]

-- Nobody else holds a position that is not occupied.
pub is_occupied-false :
    (p position k : ℕ) (xs : List PlaylistItem)
    → is_occupied p position k xs ≡ false
    → (z : PlaylistItem) → Memᴰ z xs
    → z.playlist ≡ p
    → z.position ≡ position
    → z.id ≡ k
unfolding is_occupied
is_occupied-false p position k xs h z m e f = ground (
  arith,
  exists-false (λ i. of_playlist p i && (i.position == position && not (i.id == k))) xs h z m,
)

pub save_position-IsConstrained :
    (k position : ℕ) (xs : List PlaylistItem) {ys : List PlaylistItem}
    → save_position k position xs ≡ ok ys
    → IsConstrained xs
    → IsConstrained ys
save_position-IsConstrained k position xs {ys} h c =
    let (i, mi, ei, free, q) = save_position-ok k position xs h in
    let alone : (y z : PlaylistItem)
        → Memᴰ y xs
        → y.id ≡ k
        → Memᴰ z xs
        → z.id ≢ k
        → y.playlist ≡ z.playlist
        → z.position ≢ position =
      λ y z my ey mz nz ep es. nz (
        is_occupied-false i.playlist position k xs free z mz
          (sym ep ∙ ap (λ w. w.playlist) (c.keys y i my mi (ey ∙ sym ei))) es) in
    subst IsConstrained (sym q) (record {
      keys = update-HasUniqueKeys (λ j. j.id == k) (at position) xs (λ j. refl) c.keys;
      positions = λ a b ma mb ep es. elim (mem-moved k position xs ma) [
        | inl (na, da) ↦ elim (mem-moved k position xs mb) [
          | inl (nb, db) ↦ c.positions a b na nb ep es
          | inr (y, my, ey, qb) ↦ absurd (
              alone y a my ey na da (sym (ap (λ w. w.playlist) qb) ∙ sym ep)
                (es ∙ ap (λ w. w.position) qb))
        ]
        | inr (y, my, ey, qa) ↦ elim (mem-moved k position xs mb) [
          | inl (nb, db) ↦ absurd (
              alone y b my ey nb db (sym (ap (λ w. w.playlist) qa) ∙ ep)
                (sym es ∙ ap (λ w. w.position) qa))
          | inr (w, mw, ew, qb) ↦ qa ∙ ap (at position) (c.keys y w my mw (ey ∙ sym ew)) ∙ sym qb
        ]
      ];
    })

-- What a successful insert is.
pub create_item-ok :
    (i : PlaylistItem) (xs : List PlaylistItem) {ys : List PlaylistItem}
    → create_item i xs ≡ ok ys
    → (get i.id xs ≡ none)
      × (is_occupied i.playlist i.position i.id xs ≡ false)
      × (ys ≡ insert i xs)
unfolding create_item
create_item-ok i xs {ys} h = (ground arith, ground arith, ground arith)

pub create_item-IsConstrained :
    (i : PlaylistItem) (xs : List PlaylistItem) {ys : List PlaylistItem}
    → create_item i xs ≡ ok ys
    → IsConstrained xs
    → IsConstrained ys
create_item-IsConstrained i xs {ys} h c =
    let (fresh, free, q) = create_item-ok i xs h in
    let alone : (z : PlaylistItem) → Memᴰ z xs → z.playlist ≡ i.playlist → z.position ≢ i.position =
      λ z mz ep es.
        get-eq-none i.id xs fresh z mz
          (is_occupied-false i.playlist i.position i.id xs free z mz ep es) in
    subst IsConstrained (sym q) (record {
      keys = insert-HasUniqueKeys i xs c.keys fresh;
      positions = λ a b ma mb ep es. elim (mem-append xs (i ∷ []) ma) [
        | inl na ↦ elim (mem-append xs (i ∷ []) mb) [
          | inl nb ↦ c.positions a b na nb ep es
          | inr nb ↦ absurd (
              alone a na (ep ∙ ap (λ w. w.playlist) (mem-singleton nb))
                (es ∙ ap (λ w. w.position) (mem-singleton nb)))
        ]
        | inr na ↦ elim (mem-append xs (i ∷ []) mb) [
          | inl nb ↦ absurd (
              alone b nb (sym ep ∙ ap (λ w. w.playlist) (mem-singleton na))
                (sym es ∙ ap (λ w. w.position) (mem-singleton na)))
          | inr nb ↦ mem-singleton na ∙ sym (mem-singleton nb)
        ]
      ];
    })
