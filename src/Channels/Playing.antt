-- ===== src/Channels/Playing.antt =====
-- A channel that a zone plays is not archived, whatever channel requests are run
-- (apps/playlists/services.py).
use brandy_manager_back.Prelude.{
  ℕ, ◌≡◌, ◌⊎◌, sym, ap, ◌∙◌, subst, Option, none, some, List, [], ◌∷◌, true, false, ◌==◌, is_none,
  arith, exists-false, select, inl, inr, Option-cases, Bool-cases, Memᴰ, mem-append, mem-singleton,
}
use brandy_manager_back.Result.{ok, Result-cases}
use brandy_manager_back.Table.{get, save, insert, mem-save, pk-get}
use brandy_manager_back.Text.{Text}
use brandy_manager_back.Models.Organizations.{zone_row}
use brandy_manager_back.Models.Channels.{
  Channel, ZoneChannelAssignment, channel_row, channel_is_archived, channel_assignment_row,
  active_assignment,
}
use brandy_manager_back.Channels.Store.{ChannelDb, ChannelEnv}
use brandy_manager_back.Channels.Lifecycle.{is_open_on}
use brandy_manager_back.Channels.Assigning.{
  closed_assignment, channel_assigned, channel_changed, opened_assignment,
  insert_channel_assignment, open_assignment, change_assignment, assign_channel_to_zone,
}
use brandy_manager_back.Channels.InUse.{Archives, same-Archives}
use brandy_manager_back.Playback.Snapshots.{create_zone_operational_snapshot}
use brandy_manager_back.Playback.Served.{create-Created, Created-assignments, Created-channels}

-- The channel of an open assignment is not archived.
abbrev pub IsPlayable : ChannelDb → Type 0
IsPlayable db =
    (a : ZoneChannelAssignment) (c : Channel)
    → Memᴰ a db.assignments
    → is_none a.unassigned_at ≡ true
    → get a.channel db.channels ≡ some c
    → channel_is_archived c.status ≡ false

-- What a request may do: archive no channel that is played, and open assignments of others only.
pub record Plays (db db' : ChannelDb) : Type 0 where
  pub archives : Archives db db'
  pub opens :
      (a : ZoneChannelAssignment)
      → Memᴰ a db'.assignments
      → is_none a.unassigned_at ≡ true
      → Memᴰ a db.assignments
        ⊎ ((c : Channel)
            → get a.channel db'.channels ≡ some c
            → channel_is_archived c.status ≡ false)

pub Plays-IsPlayable : {db db' : ChannelDb} → Plays db db' → IsPlayable db → IsPlayable db'
Plays-IsPlayable {db} {db'} p v a c m o g = elim (p.opens a m o) [
  | inr new ↦ new c g
  | inl old ↦ elim (Bool-cases (channel_is_archived c.status)) [
    | inr n ↦ n
    | inl y ↦ elim (p.archives a.channel c g y) [
      | inl (b, h, q) ↦ absurd (ground (arith, v a b old o h, q))
      | inr e ↦
          absurd (ground (arith, o, exists-false (is_open_on a.channel) db.assignments e a old))
    ]
  ]
]

pub same-Plays :
    (db db' : ChannelDb) → Archives db db' → db'.assignments ≡ db.assignments → Plays db db'
same-Plays db db' r e = record { archives = r; opens = λ a m o. inl (subst (Memᴰ a) e m) }

open-effect :
    (env : ChannelEnv) (a : ZoneChannelAssignment) (o now : ℕ) (db : ChannelDb)
    {r : ZoneChannelAssignment} {db' : ChannelDb}
    → open_assignment env a o now db ≡ ok (r, db')
    → (db'.assignments ≡ insert a db.assignments) × (db'.channels ≡ db.channels)
unfolding open_assignment insert_channel_assignment
open-effect env a o now db {r} {db'} h =
    let db1 = record db { assignments = insert a db.assignments } in
    elim (Result-cases (create_zone_operational_snapshot env a.zone channel_assigned o now db1)) [
      | inl (e, q) ↦ absurd (ground arith)
      | inr ((s, db2), q) ↦
          let c = create-Created env a.zone channel_assigned o now db1 q in
          let same : db2 ≡ db' = ground (arith, q) in
          (
            ap (λ x. x.assignments) (sym same) ∙ Created-assignments c,
            ap (λ x. x.channels) (sym same) ∙ Created-channels c,
          )
    ]

-- An open row of a table with one row saved closed, and one inserted.
reopened :
    (a closed : ZoneChannelAssignment) (rows : List ZoneChannelAssignment)
    {b : ZoneChannelAssignment}
    → is_none closed.unassigned_at ≡ false
    → Memᴰ b (insert a (save closed rows))
    → is_none b.unassigned_at ≡ true
    → Memᴰ b rows ⊎ (b ≡ a)
reopened a closed rows {b} n m o = elim (mem-append (save closed rows) (a ∷ []) m) [
  | inr q ↦ inr (mem-singleton q)
  | inl q ↦ elim (mem-save closed rows q) [
    | inl e ↦ absurd (ground (arith, ap (λ x. x.unassigned_at) e, n, o))
    | inr w ↦ inl w.0
  ]
]

change-effect :
    (env : ChannelEnv) (a : ZoneChannelAssignment) (actor : Option ℕ) (reason : Text) (o now : ℕ)
    (db : ChannelDb) {r : ZoneChannelAssignment} {db' : ChannelDb}
    (current : Option ZoneChannelAssignment)
    → change_assignment env a actor reason o now current db ≡ ok (r, db')
    → ((b : ZoneChannelAssignment)
        → Memᴰ b db'.assignments
        → is_none b.unassigned_at ≡ true
        → Memᴰ b db.assignments ⊎ (b ≡ a))
      × (db'.channels ≡ db.channels)
unfolding change_assignment
change-effect env a actor reason o now db none h =
    let (e, f) = open-effect env a o now db h in
    (
      λ b m q. elim (mem-append db.assignments (a ∷ []) (subst (Memᴰ b) e m)) [
        | inl p ↦ inl p
        | inr p ↦ inr (mem-singleton p)
      ],
      f,
    )
change-effect env a actor reason o now db {r} {db'} (some current) h =
    elim (Bool-cases (current.channel == a.channel)) [
      | inl same ↦
          let q : db' ≡ db = ground (arith, same) in
          (λ b m o. inl (subst (λ x. Memᴰ b x.assignments) q m), ap (λ x. x.channels) q)
      | inr other ↦
          let closed = closed_assignment actor reason channel_changed now current in
          let (e, f) =
            open-effect env a o now (record db { assignments = save closed db.assignments }) {r = r}
              {db' = db'} (ground (arith, other)) in
          (λ b m q. reopened a closed db.assignments (ground arith) (subst (Memᴰ b) e m) q, f)
    ]

pub assign-Plays :
    (env : ChannelEnv) (company zone channel : ℕ) (actor : Option ℕ) (reason : Text) (i o now : ℕ)
    (db : ChannelDb) {r : ZoneChannelAssignment} {db' : ChannelDb}
    → assign_channel_to_zone env company zone channel actor reason i o now db ≡ ok (r, db')
    → Plays db db'
unfolding assign_channel_to_zone
assign-Plays env company zone channel actor reason i o now db {r} {db'} h =
    elim (Option-cases (get zone (select (λ z. z.company == company) db.store.zones))) [
      | inl n ↦ absurd (ground arith)
      | inr (z, ez) ↦ elim (Option-cases (get channel db.channels)) [
        | inl n ↦ absurd (ground arith)
        | inr (c, ec) ↦
            let a = opened_assignment company z.id c.id actor reason i now in
            let (opens, same) =
              change-effect env a actor reason o now db {r = r} {db' = db'}
                (active_assignment db.assignments z.id) (ground arith) in
            let playable : channel_is_archived c.status ≡ false = ground (arith, ez, ec) in
            let k : c.id ≡ channel = pk-get channel db.channels ec in
            record {
              archives = same-Archives db db' same;
              opens = λ b m q. elim (opens b m q) [
                | inl old ↦ inl old
                | inr e ↦ inr (λ d g. ground (
                  arith,
                  playable,
                  sym (ap (get b.channel) same) ∙ g,
                  ap (λ x. get x.channel db.channels) e,
                  ap (λ x. get x db.channels) k,
                  ec,
                ))
              ];
            }
      ]
    ]
