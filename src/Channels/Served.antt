-- ===== src/Channels/Served.antt =====
-- Whatever channel requests are run (apps/playlists/services.py), zones play what is assigned to them.
use brandy_manager_back.Prelude.{
  ℕ, ◌≡◌, ◌≢◌, ◌⊎◌, refl, sym, ap, subst, Option, none, some, List, true, ◌==◌, arith, select, Memᴰ,
  mem-first, mem-select, inl, inr, Option-cases, Bool-cases, ==→eq, first,
}
use brandy_manager_back.Result.{ok, Result-cases}
use brandy_manager_back.Table.{
  get, insert, save, HasUniqueKeys, save-HasUniqueKeys, insert-HasUniqueKeys, select-insert_dropped,
  select-save_dropped,
}
use brandy_manager_back.Text.{Text}
use brandy_manager_back.Models.Organizations.{Zone, zone_row}
use brandy_manager_back.Models.Channels.{
  channel_row, ZoneChannelAssignment, channel_snapshot_row, channel_assignment_row, is_open_in,
  active_assignment,
}
use brandy_manager_back.Channels.Store.{ChannelDb, ChannelEnv}
use brandy_manager_back.Channels.Quiet.{Quiet}
use brandy_manager_back.Channels.Assigning.{
  closed_assignment, channel_changed, channel_withdrawn, channel_assigned, channel_unassigned,
  opened_assignment, insert_channel_assignment, open_assignment, change_assignment,
  assign_channel_to_zone, withdraw, unassign_channel_from_zone,
}
use brandy_manager_back.Playback.Snapshots.{assigned_snapshot, create_zone_operational_snapshot}
use brandy_manager_back.Playback.Served.{
  IsServed, IsServed-transport, create-Created, Created-all, Created-assignments,
}

-- Every zone is served, and assignments have keys of their own.
pub record IsConsistent (db : ChannelDb) : Type 0 where
  pub keys : HasUniqueKeys db.assignments
  pub served : (zone : ℕ) → IsServed db zone

pub Quiet-IsConsistent : {db db' : ChannelDb} → Quiet db db' → IsConsistent db → IsConsistent db'
Quiet-IsConsistent {db} {db'} q v = record {
  keys = subst HasUniqueKeys (sym q.same_assignments) v.keys;
  served = λ zone.
      IsServed-transport zone q.same_operational
        (ap (λ x. active_assignment x zone) q.same_assignments)
        (ap (λ x. assigned_snapshot x (active_assignment db.assignments zone)) q.same_snapshots)
        (v.served zone);
}

-- All zones but one are served.
abbrev pub ServedBut : ℕ → ChannelDb → Type 0
ServedBut z db = (zone : ℕ) → (zone ≡ z) ⊎ IsServed db zone

-- Rows of one zone are of no concern to the others.
ServedBut-change :
    (z : ℕ) (db : ChannelDb) (ys : List ZoneChannelAssignment)
    → ((zone : ℕ)
        → zone ≢ z
        → select (is_open_in zone) ys ≡ select (is_open_in zone) db.assignments)
    → ServedBut z db
    → ServedBut z (record db { assignments = ys })
ServedBut-change z db ys same v zone = elim (Bool-cases (zone == z)) [
  | inl e ↦ inl (==→eq zone z e)
  | inr n ↦ elim (v zone) [
    | inl e ↦ inl e
    | inr w ↦ inr (
        IsServed-transport zone refl (ap first (same zone (λ e. absurd (ground (arith, n, e)))))
          refl w)
  ]
]

open-IsConsistent :
    (env : ChannelEnv) (a : ZoneChannelAssignment) (o now : ℕ) (db : ChannelDb)
    {r : ZoneChannelAssignment} {db' : ChannelDb}
    → open_assignment env a o now db ≡ ok (r, db')
    → HasUniqueKeys db.assignments
    → ServedBut a.zone db
    → IsConsistent db'
unfolding open_assignment insert_channel_assignment
open-IsConsistent env a o now db {r} {db'} h keys v =
    let db1 = record db { assignments = insert a db.assignments } in
    elim (Result-cases (create_zone_operational_snapshot env a.zone channel_assigned o now db1)) [
      | inl (e, q) ↦ absurd (ground arith)
      | inr ((s, db2), q) ↦
          let c = create-Created env a.zone channel_assigned o now db1 q in
          let fresh : get a.id db.assignments ≡ none =
            elim (Option-cases (get a.id db.assignments)) [
              | inl n ↦ n
              | inr (b, e) ↦ absurd (ground (arith, e))
            ] in
          let same : db2 ≡ db' = ground (arith, q) in
          subst IsConsistent same (record {
            keys =
                subst HasUniqueKeys (sym (Created-assignments c))
                  (insert-HasUniqueKeys a db.assignments keys fresh);
            served = Created-all c (
                ServedBut-change a.zone db (insert a db.assignments)
                  (λ zone d.
                    select-insert_dropped (is_open_in zone) a db.assignments (ground (arith, d)))
                  v);
          })
    ]

pub active-mem :
    (rows : List ZoneChannelAssignment) (z : ℕ) {a : ZoneChannelAssignment}
    → active_assignment rows z ≡ some a
    → Memᴰ a rows × (is_open_in z a ≡ true)
active-mem rows z e = mem-select (is_open_in z) rows (mem-first (select (is_open_in z) rows) e)

-- Closing the open assignment of a zone leaves the other zones served.
module _ (db : ChannelDb) (v : IsConsistent db) (z : ℕ) (current : ZoneChannelAssignment)
    (is_current : active_assignment db.assignments z ≡ some current) where
  close-ServedBut :
      (actor : Option ℕ) (reason default : Text) (now : ℕ)
      → ServedBut z (record db {
        assignments = save (closed_assignment actor reason default now current) db.assignments;
      })
  close-ServedBut actor reason default now =
      let (m, r) = active-mem db.assignments z is_current in
      let closed = closed_assignment actor reason default now current in
      ServedBut-change z db (save closed db.assignments)
        (λ zone d.
          select-save_dropped (is_open_in zone) closed db.assignments (ground arith) (λ y my e.
            let q = v.keys y current my m e in ground (arith, ap (is_open_in zone) q, r, d)))
        (λ zone. inr (v.served zone))

change-IsConsistent :
    (env : ChannelEnv) (a : ZoneChannelAssignment) (actor : Option ℕ) (reason : Text) (o now : ℕ)
    (db : ChannelDb) {r : ZoneChannelAssignment} {db' : ChannelDb}
    (current : Option ZoneChannelAssignment)
    → active_assignment db.assignments a.zone ≡ current
    → change_assignment env a actor reason o now current db ≡ ok (r, db')
    → IsConsistent db
    → IsConsistent db'
unfolding change_assignment
change-IsConsistent env a actor reason o now db none e h v =
    open-IsConsistent env a o now db h v.keys (λ zone. inr (v.served zone))
change-IsConsistent env a actor reason o now db {r} {db'} (some current) e h v =
    elim (Bool-cases (current.channel == a.channel)) [
      | inl same ↦ let q : db ≡ db' = ground (arith, same) in subst IsConsistent q v
      | inr other ↦
          let closed = closed_assignment actor reason channel_changed now current in
          open-IsConsistent env a o now (record db { assignments = save closed db.assignments })
            {r = r} (ground (arith, other)) (save-HasUniqueKeys closed db.assignments v.keys)
            (close-ServedBut db v a.zone current e actor reason channel_changed now)
    ]

pub assign-IsConsistent :
    (env : ChannelEnv) (company zone channel : ℕ) (actor : Option ℕ) (reason : Text) (i o now : ℕ)
    (db : ChannelDb) {r : ZoneChannelAssignment} {db' : ChannelDb}
    → assign_channel_to_zone env company zone channel actor reason i o now db ≡ ok (r, db')
    → IsConsistent db
    → IsConsistent db'
unfolding assign_channel_to_zone
assign-IsConsistent env company zone channel actor reason i o now db {r} h v =
    elim (Option-cases (get zone (select (λ z. z.company == company) db.store.zones))) [
      | inl n ↦ absurd (ground arith)
      | inr (z, ez) ↦ elim (Option-cases (get channel db.channels)) [
        | inl n ↦ absurd (ground arith)
        | inr (c, ec) ↦
            change-IsConsistent env (opened_assignment company z.id c.id actor reason i now) actor
              reason o now db {r = r} (active_assignment db.assignments z.id) refl (ground arith) v
      ]
    ]

withdraw-IsConsistent :
    (env : ChannelEnv) (z : Zone) (current : ZoneChannelAssignment) (actor : Option ℕ)
    (reason : Text) (o now : ℕ) (db : ChannelDb) {r : Option ZoneChannelAssignment}
    {db' : ChannelDb}
    → active_assignment db.assignments z.id ≡ some current
    → withdraw env z actor reason o now (some current) db ≡ ok (r, db')
    → IsConsistent db
    → IsConsistent db'
withdraw-IsConsistent env z current actor reason o now db {r} {db'} e h v =
    let closed = closed_assignment actor reason channel_withdrawn now current in
    let db1 = record db { assignments = save closed db.assignments } in
    elim (Result-cases (create_zone_operational_snapshot env z.id channel_unassigned o now db1)) [
      | inl (x, q) ↦ absurd (ground arith)
      | inr ((s, db2), q) ↦
          let c = create-Created env z.id channel_unassigned o now db1 q in
          let same : db2 ≡ db' = ground (arith, q) in
          subst IsConsistent same (record {
            keys =
                subst HasUniqueKeys (sym (Created-assignments c))
                  (save-HasUniqueKeys closed db.assignments v.keys);
            served =
                Created-all c
                  (close-ServedBut db v z.id current e actor reason channel_withdrawn now);
          })
    ]

pub unassign-IsConsistent :
    (env : ChannelEnv) (company zone : ℕ) (actor : Option ℕ) (reason : Text) (o now : ℕ)
    (db : ChannelDb) {r : Option ZoneChannelAssignment} {db' : ChannelDb}
    → unassign_channel_from_zone env company zone actor reason o now db ≡ ok (r, db')
    → IsConsistent db
    → IsConsistent db'
unfolding unassign_channel_from_zone
unassign-IsConsistent env company zone actor reason o now db {r} {db'} h v =
    elim (Option-cases (get zone (select (λ z. z.company == company) db.store.zones))) [
      | inl n ↦ absurd (ground arith)
      | inr (z, ez) ↦ elim (Option-cases (active_assignment db.assignments z.id)) [
        | inl e ↦ let q : db ≡ db' = ground (arith, e, ez) in subst IsConsistent q v
        | inr (current, e) ↦
            withdraw-IsConsistent env z current actor reason o now db {r = r} {db' = db'} e
              (ground (arith, e, ez)) v
      ]
    ]
