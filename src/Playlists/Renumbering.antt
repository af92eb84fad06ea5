-- ===== src/Playlists/Renumbering.antt =====
-- The loop of `remove_playlist_item` (apps/playlists/services.py), which closes the gap.
use brandy_manager_back.Prelude.{
  ℕ, suc, ◌+◌, ◌≤◌, ◌<◌, ◌≡◌, ◌≢◌, refl, sym, ap, ◌∙◌, subst, List, [], ◌∷◌, arith, ◌⊎◌, inl, inr,
  Memᴰ, length, Bool-cases, ◌==◌, if◌then◌else◌,
}
use brandy_manager_back.Result.{ok}
use brandy_manager_back.Models.Playlists.{PlaylistItem}
use brandy_manager_back.Playlists.Items.{save_position, renumber}
use brandy_manager_back.Playlists.Constraints.{IsConstrained, mem-moved, save_position-ok}
use brandy_manager_back.Playlists.Numbering.{
  Keeps, Keeps-refl, Keeps-trans, save_position-Keeps, then-ok,
}

-- One round: the row is left where it is, or moved.
data Round (c : PlaylistItem) (n : ℕ) (xs ys : List PlaylistItem) : Type 0 where
  stays : c.position ≡ n → ys ≡ xs → Round c n xs ys
  moves : save_position c.id n xs ≡ ok ys → Round c n xs ys

Round-cases :
    (c : PlaylistItem) (n : ℕ) (xs : List PlaylistItem) {ys : List PlaylistItem}
    → (if c.position == n then ok xs else save_position c.id n xs) ≡ ok ys
    → Round c n xs ys
Round-cases c n xs h = elim (Bool-cases (c.position == n)) [
  | inl e ↦ Round.stays (ground arith) (ground (arith, e))
  | inr e ↦ Round.moves (ground (arith, e))
]

Round-Keeps :
    {c : PlaylistItem} {n : ℕ} {xs ys : List PlaylistItem}
    → Round c n xs ys
    → IsConstrained xs
    → Keeps xs ys
Round-Keeps {xs} (Round.stays e q) k = subst (Keeps xs) (sym q) (Keeps-refl k)
Round-Keeps {c} {n} {xs} (Round.moves h) k = save_position-Keeps c.id n xs h k

pub renumber-Keeps :
    (n : ℕ) (cs : List PlaylistItem) (xs : List PlaylistItem) {ys : List PlaylistItem}
    → renumber n cs xs ≡ ok ys
    → IsConstrained xs
    → Keeps xs ys
unfolding renumber
renumber-Keeps n [] xs h c = subst (Keeps xs) (ground arith) (Keeps-refl c)
renumber-Keeps n (k ∷ ks) xs h c =
    let (mid, e, f) = then-ok {r = if k.position == n then ok xs else save_position k.id n xs} h in
    let first = Round-Keeps (Round-cases k n xs e) c in
    Keeps-trans first (renumber-Keeps (suc n) ks mid f first.constrained)

-- A row already has its number, or is still to be visited at its present position.
abbrev pub IsDue : ℕ → ℕ → List PlaylistItem → PlaylistItem → Type 0
IsDue lo n cs y =
    (lo ≤ y.position × (y.position < n))
    ⊎ ((c : PlaylistItem) × Memᴰ c cs × (c.id ≡ y.id) × (c.position ≡ y.position))

Round-IsDue :
    {lo n : ℕ} {c : PlaylistItem} {cs xs ys : List PlaylistItem}
    → Round c n xs ys
    → lo ≤ n
    → (y : PlaylistItem) → Memᴰ y ys
    → ((x : PlaylistItem) → Memᴰ x xs → x.id ≡ y.id → IsDue lo n (c ∷ cs) x)
    → IsDue lo (suc n) cs y
Round-IsDue {xs} (Round.stays e q) l y m inv = elim (inv y (subst (Memᴰ y) q m) (refl)) [
  | inl b ↦ inl (b.0, omega (arith, b.1))
  | inr (d, Memᴰ.head p, i, f) ↦
      inl (ground (arith, ap (λ w. w.position) p), ground (arith, ap (λ w. w.position) p))
  | inr (d, Memᴰ.tail t, i, f) ↦ inr (d, t, i, f)
]
Round-IsDue {lo} {n} {c} {cs} {xs} (Round.moves h) l y m inv =
    let (i, mi, ei, free, q) = save_position-ok c.id n xs h in
    elim (mem-moved c.id n xs (subst (Memᴰ y) q m)) [
      | inl (ny, dy) ↦ elim (inv y ny refl) [
        | inl b ↦ inl (b.0, omega (arith, b.1))
        | inr (d, Memᴰ.head p, j, f) ↦ absurd (dy (sym j ∙ ap (λ w. w.id) p))
        | inr (d, Memᴰ.tail t, j, f) ↦ inr (d, t, j, f)
      ]
      | inr (w, mw, ew, qw) ↦
          inl (ground (arith, ap (λ v. v.position) qw), ground (arith, ap (λ v. v.position) qw))
    ]

pub renumber-bounds :
    (lo n : ℕ) (cs xs : List PlaylistItem) {ys : List PlaylistItem}
    → renumber n cs xs ≡ ok ys
    → lo ≤ n
    → (z : PlaylistItem) → Memᴰ z ys
    → ((y : PlaylistItem) → Memᴰ y xs → y.id ≡ z.id → IsDue lo n cs y)
    → lo ≤ z.position × (z.position < n + length cs)
unfolding renumber
renumber-bounds lo n [] xs {ys} h l z m inv = elim (inv z (subst (Memᴰ z) (ground arith) m) refl) [
  | inl b ↦ (b.0, omega (arith, b.1))
  | inr (c, t, i, f) ↦ elim t [ ]
]
renumber-bounds lo n (k ∷ ks) xs {ys} h l z m inv =
    let (mid, e, f) = then-ok {r = if k.position == n then ok xs else save_position k.id n xs} h in
    let ih =
      renumber-bounds lo (suc n) ks mid f (omega arith) z m
        (λ y my ey. Round-IsDue (Round-cases k n xs e) l y my (λ x mx ex. inv x mx (ex ∙ ey))) in
    (ih.0, omega (arith, ih.1))

pub renumber-rest :
    (n : ℕ) (cs xs : List PlaylistItem) {ys : List PlaylistItem}
    → renumber n cs xs ≡ ok ys
    → (z : PlaylistItem) → Memᴰ z ys
    → ((c : PlaylistItem) → Memᴰ c cs → c.id ≢ z.id)
    → Memᴰ z xs
unfolding renumber
renumber-rest n [] xs h z m d = subst (Memᴰ z) (ground arith) m
renumber-rest n (k ∷ ks) xs h z m d =
    let (mid, e, f) = then-ok {r = if k.position == n then ok xs else save_position k.id n xs} h in
    let mm = renumber-rest (suc n) ks mid f z m (λ c t. d c (Memᴰ.tail t)) in
    elim (Round-cases k n xs e) [
      | Round.stays g q ↦ subst (Memᴰ z) q mm
      | Round.moves g ↦
          let (i, mi, ei, free, q) = save_position-ok k.id n xs g in
          elim (mem-moved k.id n xs (subst (Memᴰ z) q mm)) [
            | inl (nz, dz) ↦ nz
            | inr (y, my, ey, qy) ↦ absurd (d k (Memᴰ.head refl) (sym (ap (λ w. w.id) qy ∙ ey)))
          ]
    ]
