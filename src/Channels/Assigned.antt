-- ===== src/Channels/Assigned.antt =====
-- Assigning a channel to a zone (apps/playlists/services.py) is accepted where its checks pass: no
-- constraint of the database stands in the way.
use brandy_manager_back.Prelude.{
  ℕ, ◌≡◌, refl, sym, ap, ◌∙◌, Option, none, some, List, [], ◌∷◌, Bool, true, false, ◌||◌, ◌==◌,
  is_none, arith, exists, exists-mem, first, select, inl, inr, Bool-cases, Memᴰ, ◌<◌, subst,
  mem-select, Option-cases,
}
use brandy_manager_back.Result.{ok}
use brandy_manager_back.Table.{
  get, save, insert, pk-get, mem-get, HasUniqueKeys, mem-save, get-eq-none, get-save_ne,
}
use brandy_manager_back.Text.{Text}
use brandy_manager_back.Models.Organizations.{Zone, zone_is_archived, zone_row}
use brandy_manager_back.Models.Channels.{
  ScheduleSnapshot, Channel, ChannelSnapshot, ZoneChannelAssignment, channel_row,
  channel_assignment_row, is_open_in, active_assignment, latest_channel_snapshot, operational_row,
}
use brandy_manager_back.Channels.Store.{ChannelDb, ChannelEnv}
use brandy_manager_back.Channels.Assigning.{
  has_archived_site, is_assignable, closed_assignment, channel_assigned, channel_changed,
  opened_assignment, insert_channel_assignment, open_assignment, change_assignment,
  assign_channel_to_zone,
}
use brandy_manager_back.Channels.Served.{active-mem}
use brandy_manager_back.Playback.Served.{create-Created, Created-assignments}
use brandy_manager_back.Playback.Versions.{IsServable, create-accepted}
use brandy_manager_back.Playback.Snapshots.{
  channel_is_usable, is_of_company, latest_version, effective_schedule_snapshot,
}
use brandy_manager_back.Models.Scheduling.{schedule_row}

-- The constraint `uniq_active_channel_assignment_per_zone`.
abbrev pub HasOneOpenIn : List ZoneChannelAssignment → Type 0
HasOneOpenIn rows =
    (a b : ZoneChannelAssignment)
    → Memᴰ a rows
    → Memᴰ b rows
    → is_open_in b.zone a ≡ true
    → is_none b.unassigned_at ≡ true
    → a ≡ b

get-stored :
    (zones : List Zone) {z : Zone} → HasUniqueKeys zones → Memᴰ z zones → get z.id zones ≡ some z
get-stored zones {z} keys m = elim (Option-cases (get z.id zones)) [
  | inl n ↦ absurd (get-eq-none z.id zones n z m refl)
  | inr (y, e) ↦ e ∙ ap some (keys y z (mem-get z.id zones e) m (pk-get z.id zones e))
]

first-select-insert :
    (p : ZoneChannelAssignment → Bool) (a : ZoneChannelAssignment)
    (rows : List ZoneChannelAssignment)
    → exists p rows ≡ false
    → p a ≡ true
    → first (select p (insert a rows)) ≡ some a
first-select-insert p a [] n h = ground arith
first-select-insert p a (x ∷ xs) n h = ground (arith, first-select-insert p a xs)

none-open :
    (z : ℕ) (rows : List ZoneChannelAssignment)
    → active_assignment rows z ≡ none
    → exists (is_open_in z) rows ≡ false
none-open z [] e = refl
none-open z (x ∷ xs) e = ground (arith, none-open z xs)

-- Closing the open row of a zone leaves none open there.
closed-none :
    (z : ℕ) (rows : List ZoneChannelAssignment) (current closed : ZoneChannelAssignment)
    → HasOneOpenIn rows
    → active_assignment rows z ≡ some current
    → closed.id ≡ current.id
    → is_none closed.unassigned_at ≡ false
    → exists (is_open_in z) (save closed rows) ≡ false
closed-none z rows current closed one e same n =
    elim (Bool-cases (exists (is_open_in z) (save closed rows))) [
      | inr f ↦ f
      | inl t ↦
          let (y, m, o) = exists-mem (is_open_in z) (save closed rows) t in
          let (mc, oc) = active-mem rows z e in
          elim (mem-save closed rows m) [
            | inl q ↦ absurd (ground (arith, ap (λ x. x.unassigned_at) q, o, n))
            | inr (my, d) ↦
                let q : current ≡ y =
                  one current y mc my (ground (arith, o, oc)) (ground (arith, o)) in
                absurd (d (sym (same ∙ ap (λ x. x.id) q)))
          ]
    ]

-- What an accepted request answers with, and where the zone stands after it.
abbrev pub IsOpened : (db' : ChannelDb) → (zone channel : ℕ) → ZoneChannelAssignment → Type 0
IsOpened db' zone channel a =
    (active_assignment db'.assignments zone ≡ some a) × (a.channel ≡ channel)

-- What the new rows ask of the database: a version is left for the zone, and the schedule that it follows
-- is of its company.
pub record IsReady (env : ChannelEnv) (now : ℕ) (db : ChannelDb) (z : Zone) : Type 0 where
  pub versions : latest_version z.id db.operational < 2147483647
  pub schedule :
      (s : ScheduleSnapshot)
      → effective_schedule_snapshot env db z now ≡ some s
      → is_of_company z.company (get s.schedule db.store.schedules) ≡ true

module _ (env : ChannelEnv) (a : ZoneChannelAssignment) (o now : ℕ) {z : Zone}
    (live : is_none a.unassigned_at ≡ true) (company : z.company ≡ a.company) where
  ready-IsServable :
      (db : ChannelDb)
      → z.id ≡ a.zone
      → channel_is_usable a.company (get a.channel db.channels) ≡ true
      → exists (is_open_in a.zone) db.assignments ≡ false
      → IsReady env now db z
      → IsServable env now (record db { assignments = insert a db.assignments }) z
  unfolding effective_schedule_snapshot
  ready-IsServable db k usable shut ready = record {
    versions = ready.versions;
    channel = λ b e.
        let here =
          ap (active_assignment (insert a db.assignments)) k
          ∙ first-select-insert (is_open_in a.zone) a db.assignments shut (ground (arith, live)) in
        let same : a ≡ b = ground (arith, here, e) in
        subst (λ x. channel_is_usable z.company (get x.channel db.channels) ≡ true) same
          (subst (λ x. channel_is_usable x (get a.channel db.channels) ≡ true) (sym company)
            usable);
    schedule = ready.schedule;
  }

  open-accepted :
      (db : ChannelDb)
      → get a.zone db.store.zones ≡ some z
      → get a.id db.assignments ≡ none
      → channel_is_usable a.company (get a.channel db.channels) ≡ true
      → exists (is_open_in a.zone) db.assignments ≡ false
      → get o db.operational ≡ none
      → IsReady env now db z
      → (db' : ChannelDb) × (open_assignment env a o now db ≡ ok (a, db'))
        × (active_assignment db'.assignments a.zone ≡ some a)
  unfolding open_assignment insert_channel_assignment
  open-accepted db e free usable shut free' ready =
      let db1 = record db { assignments = insert a db.assignments } in
      let servable = ready-IsServable db (pk-get a.zone db.store.zones e) usable shut ready in
      let (s, db2, q) = create-accepted env a.zone channel_assigned o now db1 e free' servable in
      let c = create-Created env a.zone channel_assigned o now db1 q in
      (
        db2,
        ground (arith, e, company, usable, free, shut, q),
        ap (λ x. active_assignment x a.zone) (Created-assignments c)
            ∙ first-select-insert (is_open_in a.zone) a db.assignments shut (ground (arith, live)),
      )

  saved-IsReady :
      (db : ChannelDb) (closed : ZoneChannelAssignment)
      → IsReady env now db z
      → IsReady env now (record db { assignments = save closed db.assignments }) z
  unfolding effective_schedule_snapshot
  saved-IsReady db closed ready = record { versions = ready.versions; schedule = ready.schedule }

  change-accepted :
      (actor : Option ℕ) (reason : Text) (db : ChannelDb) (current : Option ZoneChannelAssignment)
      → get a.zone db.store.zones ≡ some z
      → get a.id db.assignments ≡ none
      → channel_is_usable a.company (get a.channel db.channels) ≡ true
      → get o db.operational ≡ none
      → HasOneOpenIn db.assignments
      → IsReady env now db z
      → active_assignment db.assignments a.zone ≡ current
      → (b : ZoneChannelAssignment) × (db' : ChannelDb) × (change_assignment env a actor reason o
            now current db
          ≡ ok (b, db'))
        × IsOpened db' a.zone a.channel b
  unfolding change_assignment
  change-accepted actor reason db none stored free usable free' one ready e =
      let (db', q, w) =
        open-accepted db stored free usable (none-open a.zone db.assignments e) free' ready in
      (a, db', q, (w, refl))
  change-accepted actor reason db (some current) stored free usable free' one ready e =
      elim (Bool-cases (current.channel == a.channel)) [
        | inl same ↦ (current, db, rw same refl, (e, ground (arith, same)))
        | inr other ↦
            let closed = closed_assignment actor reason channel_changed now current in
            let db1 = record db { assignments = save closed db.assignments } in
            let unused : get a.id (save closed db.assignments) ≡ none =
              get-save_ne closed a.id db.assignments (
                get-eq-none a.id db.assignments free current (active-mem db.assignments a.zone e).0)
              ∙ free in
            let shut = closed-none a.zone db.assignments current closed one e refl (ground arith) in
            let (db', q, w) =
              open-accepted db1 stored unused usable shut free' (saved-IsReady db closed ready) in
            (a, db', rw other q, (w, refl))
      ]

-- A published channel that the company may use, with a published snapshot, can be assigned to a zone of
-- the company that is not archived, nor its site. Where no zone has two open assignments, the new keys
-- are unused, zones have different keys, the zone's versions are below the limit of their column and the
-- schedule that it follows is of the company, the request is accepted, and the open assignment of the
-- zone is then of that channel.
pub assign-accepted :
    (env : ChannelEnv) (company zone channel : ℕ) (actor : Option ℕ) (reason : Text) (i o now : ℕ)
    (db : ChannelDb) (z : Zone) (c : Channel) (s : ChannelSnapshot)
    → get zone (select (λ x. x.company == company) db.store.zones) ≡ some z
    → (zone_is_archived z.status || has_archived_site z db.store.sites) ≡ false
    → get channel db.channels ≡ some c
    → is_assignable company c ≡ true
    → latest_channel_snapshot db.snapshots c.id ≡ some s
    → HasOneOpenIn db.assignments
    → get i db.assignments ≡ none
    → get o db.operational ≡ none
    → HasUniqueKeys db.store.zones
    → IsReady env now db z
    → (a : ZoneChannelAssignment) × (db' : ChannelDb) × (assign_channel_to_zone env company zone
          channel actor reason i o now db
        ≡ ok (a, db'))
      × IsOpened db' zone channel a
unfolding assign_channel_to_zone
assign-accepted env company zone channel actor reason i o now db z c s ez usable ec allowed es one
      free free' keys ready =
    let own = λ (x : Zone). x.company == company in
    let zk : z.id ≡ zone = pk-get zone (select own db.store.zones) ez in
    let ck : c.id ≡ channel = pk-get channel db.channels ec in
    let (m, h) = mem-select own db.store.zones (mem-get zone (select own db.store.zones) ez) in
    let stored : get z.id db.store.zones ≡ some z = get-stored db.store.zones keys m in
    let a = opened_assignment company z.id c.id actor reason i now in
    let (b, db', q, (w, k)) =
      change-accepted env a o now refl (ground (arith, h)) actor reason db
        (active_assignment db.assignments z.id) stored free (ground (arith, ck, ec, allowed)) free'
        one ready refl in
    (
      b,
      db',
      ground (arith, ez, usable, ec, allowed, es, q),
      (ap (active_assignment db'.assignments) (sym zk) ∙ w, k ∙ ck),
    )
