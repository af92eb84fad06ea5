-- ===== src/Playlists/Published.antt =====
-- What a publication leaves behind (apps/playlists/services.py, `publish_playlist`).
use brandy_manager_back.Prelude.{
  ℕ, ◌+◌, ◌≤◌, ◌<◌, ◌≡◌, refl, sym, ap, ◌∙◌, subst, Option, none, some, List, [], ◌∷◌, Bool, true,
  false, ◌&&◌, arith, inl, inr, Memᴰ, All, ◌==◌, first, select, sort_by, mem-select, select-mem,
  mem-sort_by, sort_by-mem, mem-first, mem-append, mem-singleton, append-mem_right, first-sort_by,
  IsKeyOrder, Bool-cases,
}
use brandy_manager_back.Result.{ok}
use brandy_manager_back.Table.{get, save, insert, pk-get, get-save}
use brandy_manager_back.Models.Playlists.{
  Playlist, PlaylistSnapshot, PlaylistStatus, playlist_is_published, snapshot_is_published,
  newer_snapshot, latest_published, playlist_row, playlist_snapshot_row,
}
use brandy_manager_back.Playlists.Store.{PlaylistDb, PlaylistEnv}
use brandy_manager_back.Playlists.Items.{bump_revision}
use brandy_manager_back.Playlists.Publishing.{
  new_snapshot, insert_snapshot, republish, is_stale, publish_new, publish_loaded,
}

newer_snapshot-IsKeyOrder : IsKeyOrder newer_snapshot
newer_snapshot-IsKeyOrder = record {
  asym = λ a b h. ground (arith, h);
  neg_trans = λ a b c h g. ground (arith, h, g);
}

abbrev published_of : ℕ → PlaylistSnapshot → Bool
published_of k s = s.playlist == k && snapshot_is_published s.status

first-nonempty : {A : Type 0} (xs : List A) {x : A} → Memᴰ x xs → (y : A) × (first xs ≡ some y)
first-nonempty [] m = elim m [ ]
first-nonempty (y ∷ ys) m = (y, refl)

-- A snapshot with a higher version than the others becomes the latest.
latest-insert :
    (k : ℕ) (s : PlaylistSnapshot) (xs : List PlaylistSnapshot)
    → published_of k s ≡ true
    → All (λ t. t.playlist ≡ k → t.version < s.version) xs
    → latest_published (insert s xs) k ≡ some s
latest-insert k s xs good older =
    let rows = select (published_of k) (insert s xs) in
    let here =
      select-mem (published_of k) (insert s xs) (append-mem_right xs (s ∷ []) (Memᴰ.head refl))
        good in
    let (t, e) =
      first-nonempty (sort_by newer_snapshot rows) (sort_by-mem newer_snapshot rows here) in
    let ahead = first-sort_by newer_snapshot newer_snapshot-IsKeyOrder rows e s here in
    let (m, o) =
      mem-select (published_of k) (insert s xs)
        (mem-sort_by newer_snapshot rows (mem-first (sort_by newer_snapshot rows) e)) in
    e
    ∙ ap some (elim (mem-append xs (s ∷ []) m) [
      | inl n ↦ absurd (ground (arith, ahead, older t n (ground (arith, o))))
      | inr n ↦ mem-singleton n
    ])

-- What publishing leaves behind.
pub record Published (k : ℕ) (s : PlaylistSnapshot) (checksum : ℕ) (db db' : PlaylistDb)
    : Type 0 where
  pub row :
      (p : Playlist) × (get k db'.playlists ≡ some p) × (playlist_is_published p.status ≡ true)
  pub latest : latest_published db'.snapshots k ≡ some s
  pub sum : s.checksum ≡ checksum
  pub items : db'.items ≡ db.items
  pub grants : db'.grants ≡ db.grants
  pub contents : db'.contents ≡ db.contents
  pub songs : db'.songs ≡ db.songs

saved-row :
    (k : ℕ) (p x : Playlist) (xs : List Playlist)
    → get k xs ≡ some p
    → x.id ≡ p.id
    → get k (save x xs) ≡ some x
saved-row k p x xs l e =
    let same = e ∙ pk-get k xs l in
    subst (λ j. get j (save x xs) ≡ some x) same
      (get-save x {old = p} xs (ap (λ j. get j xs) same ∙ l))

publish_new-Published :
    (p : Playlist) (checksum : ℕ) (actor : Option ℕ) (new_id : ℕ) (fresh : ℕ → ℕ) (now : ℕ)
    (db : PlaylistDb) {s : PlaylistSnapshot} {db' : PlaylistDb}
    → publish_new p checksum actor new_id fresh now db ≡ ok (s, db')
    → get p.id db.playlists ≡ some p
    → All (λ t. t.playlist ≡ p.id → t.version ≤ p.current_version) db.snapshots
    → Published p.id s checksum db db'
unfolding publish_new insert_snapshot bump_revision
publish_new-Published p checksum actor new_id fresh now db {s} {db'} h l older =
    let x = record p {
      current_version = p.current_version + 1;
      status = PlaylistStatus.published;
      published_at = some now;
      revision = p.revision + 1;
    } in
    let t = new_snapshot p checksum actor new_id now in
    let e : s ≡ t = ground arith in
    record {
      row = (
        x,
        (let q : db'.playlists ≡ save x db.playlists = ground arith in
            ap (get p.id) q ∙ saved-row p.id p x db.playlists l refl),
        refl,
      );
      latest =
          let q : db'.snapshots ≡ insert t db.snapshots = ground arith in
          ap (λ z. latest_published z p.id) q
          ∙ latest-insert p.id t db.snapshots (ground arith) (λ u m f. omega (arith, older u m f))
          ∙ ap some (sym e);
      sum = ap (λ z. z.checksum) e;
      items = ground arith;
      grants = ground arith;
      contents = ground arith;
      songs = ground arith;
    }

republish-Published :
    (p : Playlist) (s : PlaylistSnapshot) (db : PlaylistDb) {t : PlaylistSnapshot}
    {db' : PlaylistDb}
    → republish p s db ≡ ok (t, db')
    → get p.id db.playlists ≡ some p
    → latest_published db.snapshots p.id ≡ some s
    → Published p.id t s.checksum db db'
unfolding republish bump_revision
republish-Published p s db {t} {db'} h l latest =
    elim (Bool-cases (playlist_is_published p.status)) [
      | inl e ↦
          let q : (t ≡ s) × (db' ≡ db) = (ground (arith, e), ground (arith, e)) in
          subst (λ w. Published p.id w s.checksum db db') (sym q.0)
            (subst (λ d. Published p.id s s.checksum db d) (sym q.1)
              (record {
                row = (p, l, e);
                latest = latest;
                sum = refl;
                items = refl;
                grants = refl;
                contents = refl;
                songs = refl;
              }))
      | inr e ↦
          let x = record p {
            status = PlaylistStatus.published;
            published_at = s.published_at;
            revision = p.revision + 1;
          } in
          let q : (t ≡ s) × (db' ≡ record db { playlists = save x db.playlists }) =
            (ground (arith, e), ground (arith, e)) in
          subst (λ w. Published p.id w s.checksum db db') (sym q.0)
            (subst (λ d. Published p.id s s.checksum db d) (sym q.1)
              (record {
                row = (x, saved-row p.id p x db.playlists l refl, refl);
                latest = latest;
                sum = refl;
                items = refl;
                grants = refl;
                contents = refl;
                songs = refl;
              }))
    ]

pub publish_loaded-Published :
    (env : PlaylistEnv) (p : Playlist) (checksum : ℕ) (actor expected : Option ℕ) (new_id : ℕ)
    (fresh : ℕ → ℕ) (now : ℕ) (db : PlaylistDb) (found : Option PlaylistSnapshot)
    {s : PlaylistSnapshot} {db' : PlaylistDb}
    → publish_loaded env p found checksum actor expected new_id fresh now db ≡ ok (s, db')
    → is_stale p expected ≡ false
    → latest_published db.snapshots p.id ≡ found
    → get p.id db.playlists ≡ some p
    → All (λ t. t.playlist ≡ p.id → t.version ≤ p.current_version) db.snapshots
    → Published p.id s checksum db db'
unfolding publish_loaded
publish_loaded-Published env p checksum actor expected new_id fresh now db none {s} h f latest l
      older =
    publish_new-Published p checksum actor new_id fresh now db (ground (arith, f)) l older
publish_loaded-Published env p checksum actor expected new_id fresh now db (some t) {s} {db'} h f
      latest l older =
    elim (Bool-cases (t.checksum == checksum)) [
      | inl e ↦
          subst (λ c. Published p.id s c db db') (ground (arith, e))
            (republish-Published p t db {t = s} (ground (arith, e, f)) l latest)
      | inr e ↦
          publish_new-Published p checksum actor new_id fresh now db (ground (arith, e, f)) l older
    ]
