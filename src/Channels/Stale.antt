-- ===== src/Channels/Stale.antt =====
-- Which zones are not served once a channel has a new snapshot (apps/playlists/services.py), and the loop
-- that serves them.
use brandy_manager_back.Prelude.{
  ℕ, suc, exists-mem, exists-false, ◌≡◌, ◌≢◌, ◌⊎◌, refl, sym, ap, ◌∙◌, subst, Option, none, some,
  List, [], ◌∷◌, ◌&&◌, ◌==◌, arith, exists, select, Memᴰ, select-mem, inl, inr, Bool-cases, ==→eq,
  first, sort_by,
}
use brandy_manager_back.Result.{ok, Result-cases}
use brandy_manager_back.Table.{insert, select-insert_dropped}
use brandy_manager_back.Text.{Text}
use brandy_manager_back.Models.Organizations.{zone_row}
use brandy_manager_back.Models.Playlists.{snapshot_is_published}
use brandy_manager_back.Models.Channels.{
  channel_row, ChannelSnapshot, ZoneChannelAssignment, newer_channel_snapshot, channel_snapshot_row,
  channel_assignment_row, active_assignment,
}
use brandy_manager_back.Channels.Store.{ChannelDb, ChannelEnv}
use brandy_manager_back.Channels.Lifecycle.{is_open_on}
use brandy_manager_back.Channels.Served.{active-mem}
use brandy_manager_back.Channels.Publishing.{snapshot_relations, refresh_zones}
use brandy_manager_back.Playback.Snapshots.{assigned_snapshot, create_zone_operational_snapshot}
use brandy_manager_back.Playback.Served.{
  IsServed, IsServed-transport, create-Created, Created-IsServed, Created-kept,
}

-- After the loop over them, the zones of the rows are served, and so is every zone that was.
pub refresh-IsServed :
    (env : ChannelEnv) (reason : Text) (fresh : ℕ → ℕ) (n now : ℕ)
    (rows : List ZoneChannelAssignment) (db : ChannelDb) {u : Unit {0}} {db' : ChannelDb}
    → refresh_zones env reason fresh n now rows db ≡ ok (u, db')
    → ((zone : ℕ)
        → ((a : ZoneChannelAssignment) × Memᴰ a rows × (zone ≡ a.zone)) ⊎ IsServed db zone)
    → (zone : ℕ) → IsServed db' zone
unfolding refresh_zones
refresh-IsServed env reason fresh n now [] db {u} {db'} h v zone = elim (v zone) [
  | inl (a, m, e) ↦ elim m [ ]
  | inr w ↦ let same : db ≡ db' = ground arith in subst (λ x. IsServed x zone) same w
]
refresh-IsServed env reason fresh n now (a ∷ as') db {u} {db'} h v zone =
    elim (Result-cases (create_zone_operational_snapshot env a.zone reason (fresh n) now db)) [
      | inl (e, q) ↦ absurd (ground arith)
      | inr ((s, db1), q) ↦
          let c = create-Created env a.zone reason (fresh n) now db q in
          refresh-IsServed env reason fresh (suc n) now as' db1 {u = u} {db' = db'}
            (ground (arith, q))
            (λ y. elim (v y) [
              | inl (b, m, e) ↦ elim m [
                | Memᴰ.head p ↦
                    inr (subst (IsServed db1) (sym (e ∙ ap (λ x. x.zone) p)) (Created-IsServed c))
                | Memᴰ.tail t ↦ inl (b, t, e)
              ]
              | inr w ↦ inr (Created-kept c y w)
            ])
            zone
    ]

-- Another channel's snapshots are what they were.
assigned-insert :
    (s : ChannelSnapshot) (snapshots : List ChannelSnapshot) (a : Option ZoneChannelAssignment)
    → ((x : ZoneChannelAssignment) → a ≡ some x → x.channel ≢ s.channel)
    → assigned_snapshot (insert s snapshots) a ≡ assigned_snapshot snapshots a
assigned-insert s snapshots none other = refl
assigned-insert s snapshots (some x) other =
    ap (λ rows. first (sort_by newer_channel_snapshot rows))
      (select-insert_dropped (λ t. t.channel == x.channel && snapshot_is_published t.status) s
        snapshots
        (elim (Bool-cases (s.channel == x.channel)) [
          | inl e ↦ absurd (other x refl (sym (==→eq s.channel x.channel e)))
          | inr n ↦ ground (arith, n)
        ]))

pub relations-same :
    (env : ChannelEnv) (channel snapshot : ℕ) (fresh : ℕ → ℕ) (db : ChannelDb) {u : Unit {0}}
    {db' : ChannelDb}
    → snapshot_relations env channel snapshot fresh db ≡ ok (u, db')
    → db' ≡ record db { snapshot_playlists = db'.snapshot_playlists }
unfolding snapshot_relations
relations-same env channel snapshot fresh db h = ground arith

-- Once a new snapshot of a channel is in, each zone is served as before or plays this channel.
pub stale-zones :
    (db : ChannelDb) (c : ℕ) (s : ChannelSnapshot)
    → s.channel ≡ c
    → ((zone : ℕ) → IsServed db zone)
    → (db' : ChannelDb) → db'.operational ≡ db.operational
    → db'.assignments ≡ db.assignments
    → db'.snapshots ≡ insert s db.snapshots
    → (zone : ℕ)
    → ((a : ZoneChannelAssignment) × Memᴰ a (select (is_open_on c) db'.assignments)
        × (zone ≡ a.zone))
      ⊎ IsServed db' zone
stale-zones db c s q v db' eo ea es zone =
    elim (Bool-cases (exists (λ a. a.zone == zone) (select (is_open_on c) db'.assignments))) [
      | inl e ↦
          let (a, m, z) =
            exists-mem (λ a. a.zone == zone) (select (is_open_on c) db'.assignments) e in
          inl (a, m, sym (==→eq a.zone zone z))
      | inr n ↦
          let plays : (x : ZoneChannelAssignment)
              → active_assignment db.assignments zone ≡ some x
              → x.channel ≢ c =
            λ x ex d.
              let (m, r) = active-mem db.assignments zone ex in
              let mx =
                select-mem (is_open_on c) db'.assignments (subst (Memᴰ x) (sym ea) m)
                  (ground (arith, r, d)) in
              absurd (
                ground (
                  arith,
                  r,
                  exists-false (λ a. a.zone == zone) (select (is_open_on c) db'.assignments) n x mx,
                )) in
          inr (
            IsServed-transport {db = db} {db' = db'} zone eo (ap (λ x. active_assignment x zone) ea)
              (ap (λ x. assigned_snapshot x (active_assignment db.assignments zone)) es
                ∙ assigned-insert s db.snapshots (active_assignment db.assignments zone)
                    (λ x ex d. plays x ex (d ∙ q)))
              (v zone))
    ]
