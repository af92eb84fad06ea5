-- ===== src/Playback/Growth.antt =====
-- The loops of `_zone_operational_snapshot_payload` (apps/playback/services.py) put in what they are
-- given, each playlist snapshot once.
use brandy_manager_back.Prelude.{
  ℕ, ℤ, pos, ◌≡◌, refl, sym, ap, ◌∙◌, subst, Option, none, some, List, [], ◌∷◌, ◌++◌, true, false,
  ◌||◌, ◌==◌, arith, inl, inr, Option-cases, Bool-cases, Memᴰ,
}
use brandy_manager_back.Table.{get}
use brandy_manager_back.Models.Playlists.{PlaylistSnapshot, playlist_snapshot_row}
use brandy_manager_back.Models.Channels.{ChannelSnapshotPlaylist, IncludedSnapshot}
use brandy_manager_back.Channels.Store.{ChannelDb}
use brandy_manager_back.Playback.Payload.{
  Included, is_included, include_playlist_snapshot, include_relation, include_relations,
  include_snapshots,
}

abbrev pub IsDistinct : List IncludedSnapshot → Type 0
IsDistinct [] = Unit
IsDistinct (x ∷ xs) = (is_included x.playlist_snapshot xs ≡ false) × IsDistinct xs

-- What a step does: nothing is left out that was in, and nothing comes in twice.
pub record Grows (xs ys : List IncludedSnapshot) : Type 0 where
  pub distinct : IsDistinct xs → IsDistinct ys
  pub keeps : (k : ℕ) → is_included k xs ≡ true → is_included k ys ≡ true

pub Grows-refl : (xs : List IncludedSnapshot) → Grows xs xs
Grows-refl xs = record { distinct = λ d. d; keeps = λ k h. h }

pub Grows-trans : {xs ys zs : List IncludedSnapshot} → Grows xs ys → Grows ys zs → Grows xs zs
Grows-trans g h = record {
  distinct = λ d. h.distinct (g.distinct d);
  keeps = λ k q. h.keeps k (g.keeps k q);
}

pub is_included-append :
    (k : ℕ) (xs : List IncludedSnapshot) (e : IncludedSnapshot)
    → is_included k (xs ++ e ∷ []) ≡ (is_included k xs || (e.playlist_snapshot == k))
is_included-append k [] e = ground arith
is_included-append k (x ∷ xs) e = ground (arith, is_included-append k xs e)

append-IsDistinct :
    (xs : List IncludedSnapshot) (e : IncludedSnapshot)
    → IsDistinct xs
    → is_included e.playlist_snapshot xs ≡ false
    → IsDistinct (xs ++ e ∷ [])
append-IsDistinct [] e d n = (refl, tt)
append-IsDistinct (x ∷ xs) e d n = (
  ground (arith, d.0, is_included-append x.playlist_snapshot xs e),
  append-IsDistinct xs e d.1 (ground (arith, n)),
)

pub include-Grows :
    (db : ChannelDb) (w : ℕ) (p : ℤ) (from until : Option ℕ) (s : PlaylistSnapshot) (acc : Included)
    → Grows acc.snapshots (include_playlist_snapshot db w p from until s acc).snapshots
      × (is_included s.id (include_playlist_snapshot db w p from until s acc).snapshots ≡ true)
unfolding include_playlist_snapshot
include-Grows db w p from until s acc = elim (Bool-cases (is_included s.id acc.snapshots)) [
  | inl e ↦ rw e (Grows-refl acc.snapshots, e)
  | inr n ↦
      let x : IncludedSnapshot = record {
        playlist = s.playlist;
        playlist_snapshot = s.id;
        version = s.version;
        weight = w;
        priority = p;
        active_from = from;
        active_until = until;
      } in
      rw n (
        record {
          distinct = λ d. append-IsDistinct acc.snapshots x d n;
          keeps = λ k h. ground (arith, h, is_included-append k acc.snapshots x);
        },
        ground (arith, is_included-append s.id acc.snapshots x),
      )
]

pub snapshots-Grows :
    (db : ChannelDb) (ss : List PlaylistSnapshot) (acc : Included)
    → Grows acc.snapshots (include_snapshots db ss acc).snapshots
unfolding include_snapshots
snapshots-Grows db [] acc = Grows-refl acc.snapshots
snapshots-Grows db (s ∷ ss) acc =
    Grows-trans (include-Grows db 1 (pos 0) none none s acc).0
      (snapshots-Grows db ss (include_playlist_snapshot db 1 (pos 0) none none s acc))

pub snapshots-included :
    (db : ChannelDb) (ss : List PlaylistSnapshot) (acc : Included) {s : PlaylistSnapshot}
    → Memᴰ s ss
    → is_included s.id (include_snapshots db ss acc).snapshots ≡ true
unfolding include_snapshots
snapshots-included db [] acc m = elim m [ ]
snapshots-included db (x ∷ xs) acc {s} (Memᴰ.head q) =
    let acc' = include_playlist_snapshot db 1 (pos 0) none none x acc in
    (snapshots-Grows db xs acc').keeps s.id (
      subst (λ t. is_included t.id acc'.snapshots ≡ true) (sym q)
        (include-Grows db 1 (pos 0) none none x acc).1)
snapshots-included db (x ∷ xs) acc (Memᴰ.tail t) =
    snapshots-included db xs (include_playlist_snapshot db 1 (pos 0) none none x acc) t

relation-Grows :
    (db : ChannelDb) (r : ChannelSnapshotPlaylist) (acc : Included)
    → Grows acc.snapshots (include_relation db r acc).snapshots
unfolding include_relation
relation-Grows db r acc =
    elim (Option-cases (get r.playlist_snapshot db.store.playlist_snapshots)) [
      | inl n ↦ rw (n, include_relation) (Grows-refl acc.snapshots)
      | inr (s, e) ↦
          rw (e, include_relation)
            (include-Grows db r.weight r.priority r.active_from r.active_until s acc).0
    ]

pub relations-Grows :
    (db : ChannelDb) (rs : List ChannelSnapshotPlaylist) (acc : Included)
    → Grows acc.snapshots (include_relations db rs acc).snapshots
unfolding include_relations
relations-Grows db [] acc = Grows-refl acc.snapshots
relations-Grows db (r ∷ rs) acc =
    Grows-trans (relation-Grows db r acc) (relations-Grows db rs (include_relation db r acc))

pub relations-included :
    (db : ChannelDb) (rs : List ChannelSnapshotPlaylist) (acc : Included)
    {r : ChannelSnapshotPlaylist} {s : PlaylistSnapshot}
    → Memᴰ r rs
    → get r.playlist_snapshot db.store.playlist_snapshots ≡ some s
    → is_included s.id (include_relations db rs acc).snapshots ≡ true
unfolding include_relations include_relation
relations-included db [] acc m e = elim m [ ]
relations-included db (x ∷ xs) acc {r} {s} (Memᴰ.head q) e =
    let e' : get x.playlist_snapshot db.store.playlist_snapshots ≡ some s =
      ap (λ t. get t.playlist_snapshot db.store.playlist_snapshots) (sym q) ∙ e in
    (relations-Grows db xs (include_relation db x acc)).keeps s.id (
      rw (e', include_relation)
        (include-Grows db x.weight x.priority x.active_from x.active_until s acc).1)
relations-included db (x ∷ xs) acc (Memᴰ.tail t) e =
    relations-included db xs (include_relation db x acc) t e
