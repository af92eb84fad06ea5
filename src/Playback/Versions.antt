-- ===== src/Playback/Versions.antt =====
-- `create_zone_operational_snapshot` (apps/playback/services.py) is accepted where the zone can be served: the
-- version after the latest is new.
use brandy_manager_back.Prelude.{
  ℕ, ◌+◌, ◌≤◌, ◌≡◌, ◌≢◌, refl, none, some, List, [], ◌∷◌, Bool, true, false, ◌&&◌, ◌==◌, arith,
  exists, exists-mem, select, first, sort_by, inl, inr, Option-cases, Bool-cases, Memᴰ, select-mem,
  sort_by-mem, first-sort_by, mem-select, mem-sort_by, mem-first, ◌<◌, IsKeyOrder,
}
use brandy_manager_back.Result.{ok}
use brandy_manager_back.Table.{get, insert, mem-update}
use brandy_manager_back.Text.{Text}
use brandy_manager_back.Models.Organizations.{Zone, zone_row}
use brandy_manager_back.Models.Scheduling.{schedule_row}
use brandy_manager_back.Models.Playlists.{snapshot_is_published}
use brandy_manager_back.Models.Channels.{
  ChannelSnapshot, ScheduleSnapshot, ZoneChannelAssignment, newer_channel_snapshot,
  latest_channel_snapshot, active_assignment, channel_row, ZoneOperationalSnapshot,
  OperationalStatus, operational_is_ready, operational_row,
}
use brandy_manager_back.Channels.Store.{ChannelDb, ChannelEnv}
use brandy_manager_back.Playback.Snapshots.{
  newer_operational, of_zone, latest_version, supersede, insert_operational, operational_for,
  create_zone_operational_snapshot, channel_is_usable, clean_channel, clean_channel_snapshot,
  is_of_company, clean_schedule_snapshot, assigned_snapshot, effective_schedule_snapshot,
}

newer_operational-IsKeyOrder : IsKeyOrder newer_operational
newer_operational-IsKeyOrder = record {
  asym = λ x y h. ground arith;
  neg_trans = λ x y z h k. ground arith;
}

-- No snapshot of the zone has a later version than the latest.
version-le-latest_version :
    (zone : ℕ) (rows : List ZoneOperationalSnapshot) {o : ZoneOperationalSnapshot}
    → Memᴰ o rows
    → of_zone zone o ≡ true
    → o.version ≤ latest_version zone rows
unfolding latest_version
version-le-latest_version zone rows {o} m z =
    let own = select (of_zone zone) rows in
    let mo = select-mem (of_zone zone) rows m z in
    elim (Option-cases (first (sort_by newer_operational own))) [
      | inl n ↦
          absurd
            (none_first (sort_by newer_operational own) (sort_by-mem newer_operational own mo) n)
      | inr (x, e) ↦
          ground (arith, e, first-sort_by newer_operational newer_operational-IsKeyOrder own e o mo)
    ]
  where
    none_first :
        (xs : List ZoneOperationalSnapshot) {y : ZoneOperationalSnapshot}
        → Memᴰ y xs
        → first xs ≢ none
    none_first [] k e = elim k [ ]
    none_first (x ∷ xs) k e = cc

next_version-new :
    (zone : ℕ) (rows : List ZoneOperationalSnapshot)
    → exists
        (λ p. of_zone zone p && p.version == latest_version zone rows + 1)
        (supersede zone rows)
      ≡ false
unfolding supersede
next_version-new zone rows =
    let holds : ZoneOperationalSnapshot → Bool =
      λ p. of_zone zone p && p.version == latest_version zone rows + 1 in
    elim (Bool-cases (exists holds (supersede zone rows))) [
      | inr n ↦ n
      | inl h ↦
          let (p, m, e) = exists-mem holds (supersede zone rows) h in
          let (x, mx, q) =
            mem-update (λ o. of_zone zone o && operational_is_ready o.status)
              (λ o. record o { status = OperationalStatus.superseded }) rows m in
          let same : (p.version ≡ x.version) × (p.zone ≡ x.zone) = ground (arith, q) in
          absurd (
            ground
              (arith, e, same, version-le-latest_version zone rows mx (ground (arith, e, same))))
    ]

supersede-get :
    (zone k : ℕ) (rows : List ZoneOperationalSnapshot)
    → get k rows ≡ none
    → get k (supersede zone rows) ≡ none
unfolding supersede
supersede-get zone k [] h = refl
supersede-get zone k (x ∷ xs) h = ground (arith, supersede-get zone k xs)

latest-channel :
    (snapshots : List ChannelSnapshot) (channel : ℕ) {s : ChannelSnapshot}
    → latest_channel_snapshot snapshots channel ≡ some s
    → s.channel ≡ channel
latest-channel snapshots channel {s} e =
    let holds : ChannelSnapshot → Bool =
      λ t. t.channel == channel && snapshot_is_published t.status in
    let rows = select holds snapshots in
    let (m, h) = mem-select holds snapshots (
      mem-sort_by newer_channel_snapshot rows
        (mem-first (sort_by newer_channel_snapshot rows) e)) in
    ground (arith, h)

-- What the checks of the new row ask of the database: the channel that is assigned to the zone is global
-- or of its company, the schedule that it follows is of its company, and a version is left.
pub record IsServable (env : ChannelEnv) (now : ℕ) (db : ChannelDb) (z : Zone) : Type 0 where
  pub versions : latest_version z.id db.operational < 2147483647
  pub channel :
      (a : ZoneChannelAssignment)
      → active_assignment db.assignments z.id ≡ some a
      → channel_is_usable z.company (get a.channel db.channels) ≡ true
  pub schedule :
      (s : ScheduleSnapshot)
      → effective_schedule_snapshot env db z now ≡ some s
      → is_of_company z.company (get s.schedule db.store.schedules) ≡ true

module _ (env : ChannelEnv) (reason : Text) (i now : ℕ) (db : ChannelDb) (z : Zone)
    (v : IsServable env now db z) where
  channel-clean : clean_channel db (operational_for env db z reason i now) ≡ true
  unfolding operational_for
  channel-clean = elim (Option-cases (active_assignment db.assignments z.id)) [
    | inl n ↦ rw n refl
    | inr (a, e) ↦ let h = v.channel a e in rw e h
  ]

  snapshot-clean :
      clean_channel_snapshot
        (operational_for env db z reason i now)
        (assigned_snapshot db.snapshots (active_assignment db.assignments z.id))
      ≡ true
  unfolding operational_for
  snapshot-clean = elim (Option-cases (active_assignment db.assignments z.id)) [
    | inl n ↦ rw n refl
    | inr (a, e) ↦ elim (Option-cases (latest_channel_snapshot db.snapshots a.channel)) [
      | inl n ↦ rw (e, n) refl
      | inr (s, q) ↦ let w = latest-channel db.snapshots a.channel q in ground (arith, e, q, w)
    ]
  ]

  schedule-clean :
      clean_schedule_snapshot db
        (operational_for env db z reason i now)
        (effective_schedule_snapshot env db z now)
      ≡ true
  unfolding operational_for
  schedule-clean = elim (Option-cases (effective_schedule_snapshot env db z now)) [
    | inl n ↦ rw n refl
    | inr (s, e) ↦ rw e (v.schedule s e)
  ]

-- A call for a stored zone, with an unused key, is accepted where the checks of the new row hold.
pub create-accepted :
    (env : ChannelEnv) (k : ℕ) (reason : Text) (i now : ℕ) (db : ChannelDb) {z : Zone}
    → get k db.store.zones ≡ some z
    → get i db.operational ≡ none
    → IsServable env now db z
    → (o : ZoneOperationalSnapshot) × (db' : ChannelDb) × (create_zone_operational_snapshot env k
          reason i now db
        ≡ ok (o, db'))
unfolding create_zone_operational_snapshot insert_operational
create-accepted env k reason i now db {z} e free v =
    let o = operational_for env db z reason i now in
    let rows = supersede z.id db.operational in
    (
      o,
      record db { operational = insert o rows },
      ground (
        arith,
        e,
        v.versions,
        channel-clean env reason i now db z v,
        snapshot-clean env reason i now db z v,
        schedule-clean env reason i now db z v,
        supersede-get z.id i db.operational free,
        next_version-new z.id db.operational,
      ),
    )
