-- ===== src/Playlists/Order.antt =====
-- A reordering of a playlist (apps/playlists/services.py, `reorder_playlist_items`) runs through its two
-- loops without breaking a constraint, and gives the items the places that were asked for.
use brandy_manager_back.Prelude.{
  ℕ, suc, ◌+◌, ◌≤◌, ◌<◌, ◌≡◌, refl, sym, ap, ◌∙◌, subst, some, List, [], ◌∷◌, ◌++◌, map, Bool, true,
  false, not, ◌&&◌, arith, ◌⊎◌, inl, inr, Memᴰ, length, ◌==◌, if◌then◌else◌, exists, exists-mem,
  exists-false, Bool-cases, Option-cases,
}
use brandy_manager_back.Result.{ok}
use brandy_manager_back.Table.{get, save, get-eq-none, mem-get, pk-get, update-mem}
use brandy_manager_back.Models.Playlists.{Playlist, PlaylistItem, playlist_row, playlist_item_row}
use brandy_manager_back.Playlists.Store.{PlaylistDb}
use brandy_manager_back.Playlists.Items.{
  of_playlist, is_occupied, save_position, number_items, ordered_items, is_reordering,
  assert_expected_revision, bump_revision, reorder_playlist_items,
}
use brandy_manager_back.Playlists.Constraints.{
  IsConstrained, count, at, moved, mem-moved, save_position-ok,
}
use brandy_manager_back.Playlists.Numbering.{
  then-ok, save_position-Keeps, number_items-Keeps, number_items-bounds, number_items-rest,
}
use brandy_manager_back.Playlists.Reordering.{Covers, is_reordering-Covers, Keeps-Covers}
use brandy_manager_back.Playlists.Numbered.{IsNumbered}
use brandy_manager_back.Playlists.Requests.{has_duplicates, reorder_distinct_items}
use brandy_manager_back.Playlists.Steps.{IsWellNumbered}

-- Every key is that of an item of the playlist.
abbrev Holds : ℕ → List PlaylistItem → List ℕ → Type 0
Holds p xs ks = (k : ℕ) → Memᴰ k ks → (i : PlaylistItem) × Memᴰ i xs × (i.playlist ≡ p) × (i.id ≡ k)

-- No item of the playlist is at a position from `low` to `high`.
abbrev HasRoom : ℕ → List PlaylistItem → ℕ → ℕ → Type 0
HasRoom p xs low high =
    (z : PlaylistItem) → Memᴰ z xs → z.playlist ≡ p → (z.position < low) ⊎ (high ≤ z.position)

moved-mem :
    (k position : ℕ) {y : PlaylistItem} (xs : List PlaylistItem)
    → Memᴰ y xs
    → (z : PlaylistItem) × Memᴰ z (moved k position xs) × (z.playlist ≡ y.playlist) × (z.id ≡ y.id)
moved-mem k position {y} xs m =
    let kept = update-mem (λ j. j.id == k) (at position) xs m in
    (if y.id == k then at position y else y, kept, ground arith, ground arith)

save_position-succeeds :
    (p k position high : ℕ) (xs : List PlaylistItem)
    → IsConstrained xs
    → (i : PlaylistItem) → Memᴰ i xs
    → i.playlist ≡ p
    → i.id ≡ k
    → position < high
    → HasRoom p xs position high
    → save_position k position xs ≡ ok (moved k position xs)
unfolding save_position is_occupied
save_position-succeeds p k position high xs c i mi ep ei l room = elim (Option-cases (get k xs)) [
  | inl n ↦ absurd (get-eq-none k xs n i mi ei)
  | inr (j, g) ↦
      let same = c.keys j i (mem-get k xs g) mi (pk-get k xs g ∙ sym ei) in
      let taken : PlaylistItem → Bool =
        λ z. of_playlist j.playlist z && (z.position == position && not (z.id == k)) in
      elim (Bool-cases (exists taken xs)) [
        | inr e ↦ ground (arith, g, e)
        | inl e ↦
            let (z, mz, h) = exists-mem taken xs e in
            absurd (elim (room z mz (ground (arith, h, ap (λ w. w.playlist) same, ep))) [
              | inl b ↦ ground (arith, b, h)
              | inr b ↦ ground (arith, b, h)
            ])
      ]
]

number_items-succeeds :
    (p n high : ℕ) (ks : List ℕ) (xs : List PlaylistItem)
    → IsConstrained xs
    → n + length ks ≤ high
    → Holds p xs ks
    → HasRoom p xs n high
    → (ys : List PlaylistItem) × (number_items n ks xs ≡ ok ys)
unfolding number_items
number_items-succeeds p n high [] xs c l holds room = (xs, refl)
number_items-succeeds p n high (k ∷ ks) xs c l holds room =
    let (i, mi, ep, ei) = holds k (Memᴰ.head refl) in
    let step = save_position-succeeds p k n high xs c i mi ep ei (omega (arith, l)) room in
    let mid = moved k n xs in
    let (ys, q) =
      number_items-succeeds p (suc n) high ks mid (save_position-Keeps k n xs step c).constrained
        (omega (arith, l))
        (λ t m.
          let (j, mj, fp, fi) = holds t (Memᴰ.tail m) in
          let (w, mw, gp, gi) = moved-mem k n xs mj in (w, mw, gp ∙ fp, gi ∙ fi))
        (λ z m e. elim (mem-moved k n xs m) [
          | inl (nz, dz) ↦ elim (room z nz e) [ inl b ↦ inl (omega (arith, b)) | inr b ↦ inr b ]
          | inr (w, mw, ew, qw) ↦ inl (ground (arith, ap (λ v. v.position) qw))
        ]) in
    (ys, rw step q)

-- The row of a key that does not come again gets the number of its place.
number_items-place :
    (n : ℕ) (before : List ℕ) (k : ℕ) (after : List ℕ) (xs : List PlaylistItem)
    {ys : List PlaylistItem}
    → number_items n (before ++ k ∷ after) xs ≡ ok ys
    → (Memᴰ k after → ⊥)
    → (z : PlaylistItem) → Memᴰ z ys
    → z.id ≡ k
    → z.position ≡ n + length before
unfolding number_items
number_items-place n [] k after xs h d z m e =
    let (mid, f, g) = then-ok {r = save_position k n xs} h in
    let (i, mi, ei, free, q) = save_position-ok k n xs f in
    let mm = number_items-rest (suc n) after mid g z m (λ t. d (subst (λ j. Memᴰ j after) e t)) in
    elim (mem-moved k n xs (subst (Memᴰ z) q mm)) [
      | inl (nz, dz) ↦ absurd (dz e)
      | inr (y, my, ey, qy) ↦ omega (arith, ap (λ w. w.position) qy)
    ]
number_items-place n (b ∷ before) k after xs h d z m e =
    let (mid, f, g) = then-ok {r = save_position b n xs} h in
    omega (arith, number_items-place (suc n) before k after mid g d z m e)

has_duplicates-after :
    (before : List ℕ) (k : ℕ) (after : List ℕ)
    → has_duplicates (before ++ k ∷ after) ≡ false
    → Memᴰ k after
    → ⊥
unfolding has_duplicates
has_duplicates-after [] k after h m =
    ground (arith, h, exists-false (λ y. y == k) after (ground (arith, h)) k m)
has_duplicates-after (b ∷ before) k after h m =
    has_duplicates-after before k after (ground (arith, h)) m

-- A loop loses no row.
number_items-forward :
    (n : ℕ) (ks : List ℕ) (xs : List PlaylistItem) {ys : List PlaylistItem}
    → number_items n ks xs ≡ ok ys
    → (y : PlaylistItem) → Memᴰ y xs
    → (z : PlaylistItem) × Memᴰ z ys × (z.playlist ≡ y.playlist) × (z.id ≡ y.id)
unfolding number_items
number_items-forward n [] xs h y m = (y, subst (Memᴰ y) (ground arith) m, refl, refl)
number_items-forward n (k ∷ ks) xs h y m =
    let (mid, f, g) = then-ok {r = save_position k n xs} h in
    let (i, mi, ei, free, q) = save_position-ok k n xs f in
    let (w, mw, ep, ew) = moved-mem k n xs m in
    let (z, mz, fp, fz) = number_items-forward (suc n) ks mid g w (subst (Memᴰ w) (sym q) mw) in
    (z, mz, fp ∙ ep, fz ∙ ew)

-- Both loops run.
loops-succeed :
    (p : ℕ) (ks : List ℕ) (xs : List PlaylistItem)
    → IsNumbered xs
    → Covers p xs ks
    → count p xs ≤ 100000
    → (mid : List PlaylistItem) × (ys : List PlaylistItem) × (number_items 100001 ks xs ≡ ok mid)
      × (number_items 1 ks mid ≡ ok ys)
loops-succeed p ks xs w cover small =
    let (mid, f) =
      number_items-succeeds p 100001 (100001 + length ks) ks xs w.constrained (omega arith)
        (λ k m. cover.only m) (λ z m e. inl (omega (arith, small, (w.range p z m e).1))) in
    let kept = number_items-Keeps 100001 ks xs f w.constrained in
    let (ys, g) =
      number_items-succeeds p 1 100001 ks mid kept.constrained (omega (arith, small, cover.size))
        (λ k m.
          let (i, mi, ep, ei) = cover.only m in
          let (z, mz, fp, fi) = number_items-forward 100001 ks xs f i mi in
          (z, mz, fp ∙ ep, fi ∙ ei))
        (λ z m e.
          inr
            (number_items-bounds 100001 100001 ks xs f (omega arith) z m (λ y my ey.
              inr (subst (λ j. Memᴰ j ks) (sym ey) (Keeps-Covers kept cover z m e)))).0) in
    (mid, ys, f, g)

-- In a playlist of at most 100000 items, numbered from 1, a request at the stored revision that names
-- every item once succeeds, so no statement of its two loops breaks the constraint on positions; and
-- then each item is at the place that its key has in the request.
pub reorder-places :
    (db : PlaylistDb) (k : ℕ) (wanted : List ℕ) (expected : ℕ) (p : Playlist)
    → get k db.playlists ≡ some p
    → p.revision ≡ expected
    → IsWellNumbered db
    → count k db.items ≤ 100000
    → has_duplicates wanted ≡ false
    → is_reordering (map (λ i. i.id) (ordered_items k db.items)) wanted ≡ true
    → (db' : PlaylistDb) × (reorder_distinct_items k wanted expected db ≡ ok (tt, db'))
      × ((before : List ℕ) (item : ℕ) (after : List ℕ)
          → wanted ≡ before ++ item ∷ after
          → (z : PlaylistItem) → Memᴰ z db'.items
          → z.id ≡ item
          → z.position ≡ suc (length before))
unfolding reorder_distinct_items reorder_playlist_items assert_expected_revision bump_revision
reorder-places db k wanted expected p l r w small once accepted =
    let same = pk-get k db.playlists l in
    let (mid, ys, f, g) =
      loops-succeed k wanted db.items w.numbered (is_reordering-Covers k db.items wanted accepted)
        small in
    let after_db : PlaylistDb = record db {
      items = ys;
      playlists = save (record p { revision = p.revision + 1 }) db.playlists;
    } in
    (
      after_db,
      ground (arith, l, r, f, g, once, accepted, same),
      λ before item after q z m e. omega (
        arith,
        number_items-place 1 before item after mid (subst (λ ks. number_items 1 ks mid ≡ ok ys) q g)
            (has_duplicates-after before item after
              (subst (λ ks. has_duplicates ks ≡ false) q once))
            z m e,
      ),
    )
