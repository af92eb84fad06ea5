-- ===== src/Playback/Contents.antt =====
-- What a zone's operational snapshot holds (apps/playback/services.py): each playlist snapshot once, and
-- all those of the channel and of the schedule.
use brandy_manager_back.Prelude.{
  ℕ, ℤ, pos, ◌≡◌, ◌⊎◌, ◌↔◌, refl, subst, Option, none, some, List, [], ◌∷◌, true, arith, inl, inr,
  Option-cases, Bool-cases, Memᴰ,
}
use brandy_manager_back.Table.{get}
use brandy_manager_back.Models.Organizations.{Zone}
use brandy_manager_back.Models.Playlists.{PlaylistSnapshot, playlist_snapshot_row}
use brandy_manager_back.Models.Channels.{
  ChannelSnapshot, ChannelSnapshotPlaylist, ZoneChannelAssignment, ScheduleSnapshot,
}
use brandy_manager_back.Channels.Store.{ChannelDb}
use brandy_manager_back.Playback.Payload.{
  Included, is_included, include_playlist_snapshot, include_relation, include_relations,
  include_snapshots, channel_relations, referenced_snapshots, included,
  zone_operational_snapshot_payload,
}
use brandy_manager_back.Playback.Growth.{
  IsDistinct, is_included-append, snapshots-Grows, snapshots-included, relations-Grows,
  relations-included,
}

-- What came in by a step is what the step was given.
include-old :
    (db : ChannelDb) (w : ℕ) (p : ℤ) (from until : Option ℕ) (s : PlaylistSnapshot) (acc : Included)
    (k : ℕ)
    → is_included k (include_playlist_snapshot db w p from until s acc).snapshots ≡ true
    → (is_included k acc.snapshots ≡ true) ⊎ (s.id ≡ k)
unfolding include_playlist_snapshot
include-old db w p from until s acc k h = elim (Bool-cases (is_included k acc.snapshots)) [
  | inl old ↦ inl old
  | inr new ↦ inr (
      ground (
        arith,
        new,
        is_included-append k acc.snapshots (record {
          playlist = s.playlist;
          playlist_snapshot = s.id;
          version = s.version;
          weight = w;
          priority = p;
          active_from = from;
          active_until = until;
        }),
      ))
]

snapshots-old :
    (db : ChannelDb) (ss : List PlaylistSnapshot) (acc : Included) (k : ℕ)
    → is_included k (include_snapshots db ss acc).snapshots ≡ true
    → (is_included k acc.snapshots ≡ true) ⊎ ((s : PlaylistSnapshot) × Memᴰ s ss × (s.id ≡ k))
unfolding include_snapshots
snapshots-old db [] acc k h = inl h
snapshots-old db (s ∷ ss) acc k h =
    elim (snapshots-old db ss (include_playlist_snapshot db 1 (pos 0) none none s acc) k h) [
      | inr (x, m, e) ↦ inr (x, Memᴰ.tail m, e)
      | inl g ↦ elim (include-old db 1 (pos 0) none none s acc k g) [
        | inl old ↦ inl old
        | inr e ↦ inr (s, Memᴰ.head refl, e)
      ]
    ]

-- A relation of the list stands for the playlist snapshot with this key.
abbrev IsRelated : ChannelDb → List ChannelSnapshotPlaylist → ℕ → Type 0
IsRelated db rs k =
    (r : ChannelSnapshotPlaylist) × (s : PlaylistSnapshot) × Memᴰ r rs
    × (get r.playlist_snapshot db.store.playlist_snapshots ≡ some s)
    × (s.id ≡ k)

relation-old :
    (db : ChannelDb) (r : ChannelSnapshotPlaylist) (acc : Included) (k : ℕ)
    → is_included k (include_relation db r acc).snapshots ≡ true
    → (is_included k acc.snapshots ≡ true)
      ⊎ ((s : PlaylistSnapshot) × (get r.playlist_snapshot db.store.playlist_snapshots ≡ some s)
          × (s.id ≡ k))
unfolding include_relation
relation-old db r acc k h =
    elim (Option-cases (get r.playlist_snapshot db.store.playlist_snapshots)) [
      | inl n ↦ inl (ground (arith, n, h))
      | inr (s, e) ↦
          elim (include-old db r.weight r.priority r.active_from r.active_until s acc k
            (ground (arith, e, h))) [ inl old ↦ inl old | inr q ↦ inr (s, e, q) ]
    ]

relations-old :
    (db : ChannelDb) (rs : List ChannelSnapshotPlaylist) (acc : Included) (k : ℕ)
    → is_included k (include_relations db rs acc).snapshots ≡ true
    → (is_included k acc.snapshots ≡ true) ⊎ IsRelated db rs k
unfolding include_relations
relations-old db [] acc k h = inl h
relations-old db (r ∷ rs) acc k h = elim (relations-old db rs (include_relation db r acc) k h) [
  | inr (x, s, m, e, q) ↦ inr (x, s, Memᴰ.tail m, e, q)
  | inl g ↦ elim (relation-old db r acc k g) [
    | inl old ↦ inl old
    | inr (s, e, q) ↦ inr (r, s, Memᴰ.head refl, e, q)
  ]
]

-- The channel's snapshot, or a block or an exception of the schedule's, refers to the playlist snapshot
-- with this key.
pub data IsNamed (db : ChannelDb) (c : Option ChannelSnapshot) (s : Option ScheduleSnapshot) (k : ℕ)
    : Type 0 where
  by_channel :
      (r : ChannelSnapshotPlaylist) (x : PlaylistSnapshot)
      → Memᴰ r (channel_relations db c)
      → get r.playlist_snapshot db.store.playlist_snapshots ≡ some x
      → x.id ≡ k
      → IsNamed db c s k
  by_schedule :
      (x : PlaylistSnapshot) → Memᴰ x (referenced_snapshots db s) → x.id ≡ k → IsNamed db c s k

-- The playlist snapshots of an operational snapshot are different, and are exactly those that the
-- channel's snapshot refers to and those that a block or an exception of the schedule's snapshot names.
pub payload-exact :
    (db : ChannelDb) (zone : Zone) (a : Option ZoneChannelAssignment) (c : Option ChannelSnapshot)
    (s : Option ScheduleSnapshot) (now k : ℕ)
    → IsDistinct (zone_operational_snapshot_payload db zone a c s now).playlist_snapshots
      × ((is_included k (zone_operational_snapshot_payload db zone a c s now).playlist_snapshots
            ≡ true)
          ↔ IsNamed db c s k)
unfolding zone_operational_snapshot_payload included
payload-exact db zone a c s now k =
    let start : Included = record { snapshots = []; assets = [] } in
    let mid = include_relations db (channel_relations db c) start in
    let end = snapshots-Grows db (referenced_snapshots db s) mid in
    (
      end.distinct ((relations-Grows db (channel_relations db c) start).distinct tt),
      (
        λ h. elim (snapshots-old db (referenced_snapshots db s) mid k h) [
          | inr (x, m, e) ↦ IsNamed.by_schedule x m e
          | inl g ↦ elim (relations-old db (channel_relations db c) start k g) [
            | inl old ↦ absurd (ground (arith, old))
            | inr (r, x, m, e, q) ↦ IsNamed.by_channel r x m e q
          ]
        ],
        λ n. elim n [
          | IsNamed.by_channel r x m e q ↦
              subst
                (λ j.
                  is_included j (include_snapshots db (referenced_snapshots db s) mid).snapshots
                  ≡ true)
                q (end.keeps x.id (relations-included db (channel_relations db c) start m e))
          | IsNamed.by_schedule x m q ↦
              subst
                (λ j.
                  is_included j (include_snapshots db (referenced_snapshots db s) mid).snapshots
                  ≡ true)
                q (snapshots-included db (referenced_snapshots db s) mid m)
        ],
      ),
    )
