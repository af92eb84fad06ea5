-- ===== src/Channels/Played.antt =====
-- Withdrawing a channel from its zone (apps/playlists/services.py) opens no assignment and archives no
-- channel.
use brandy_manager_back.Prelude.{
  ℕ, ◌≡◌, ap, ◌∙◌, Option, none, some, arith, inl, inr, Option-cases, select, ◌==◌, subst, Memᴰ,
}
use brandy_manager_back.Result.{ok, Result-cases}
use brandy_manager_back.Table.{get, save, mem-save}
use brandy_manager_back.Text.{Text}
use brandy_manager_back.Models.Organizations.{Zone, zone_row}
use brandy_manager_back.Models.Channels.{
  ZoneChannelAssignment, channel_row, channel_assignment_row, active_assignment,
  channel_snapshot_row,
}
use brandy_manager_back.Channels.Store.{ChannelDb, ChannelEnv}
use brandy_manager_back.Channels.Assigning.{
  closed_assignment, channel_unassigned, channel_withdrawn, withdraw, unassign_channel_from_zone,
}
use brandy_manager_back.Channels.InUse.{same-Archives}
use brandy_manager_back.Channels.Playing.{Plays, same-Plays}
use brandy_manager_back.Playback.Snapshots.{create_zone_operational_snapshot}
use brandy_manager_back.Playback.Served.{create-Created, Created-assignments, Created-channels}

withdraw-Plays :
    (env : ChannelEnv) (z : Zone) (actor : Option ℕ) (reason : Text) (o now : ℕ) (db : ChannelDb)
    {r : Option ZoneChannelAssignment} {db' : ChannelDb} (current : Option ZoneChannelAssignment)
    → withdraw env z actor reason o now current db ≡ ok (r, db')
    → Plays db db'
withdraw-Plays env z actor reason o now db {r} {db'} none h =
    same-Plays db db' (same-Archives db db' (ground arith)) (ground arith)
withdraw-Plays env z actor reason o now db {r} {db'} (some current) h =
    let closed = closed_assignment actor reason channel_withdrawn now current in
    let db1 = record db { assignments = save closed db.assignments } in
    elim (Result-cases (create_zone_operational_snapshot env z.id channel_unassigned o now db1)) [
      | inl (e, q) ↦ absurd (ground arith)
      | inr ((s, db2), q) ↦
          let c = create-Created env z.id channel_unassigned o now db1 q in
          let same : db' ≡ db2 = ground (arith, q) in
          record {
            archives = same-Archives db db' (ap (λ x. x.channels) same ∙ Created-channels c);
            opens = λ a m n.
                elim (mem-save closed db.assignments
                  (subst (Memᴰ a) (ap (λ x. x.assignments) same ∙ Created-assignments c) m)) [
                    | inl e ↦ absurd (ground (arith, ap (λ x. x.unassigned_at) e, n))
                    | inr w ↦ inl w.0
                  ];
          }
    ]

pub unassign-Plays :
    (env : ChannelEnv) (company zone : ℕ) (actor : Option ℕ) (reason : Text) (o now : ℕ)
    (db : ChannelDb) {r : Option ZoneChannelAssignment} {db' : ChannelDb}
    → unassign_channel_from_zone env company zone actor reason o now db ≡ ok (r, db')
    → Plays db db'
unfolding unassign_channel_from_zone
unassign-Plays env company zone actor reason o now db {r} h =
    elim (Option-cases (get zone (select (λ z. z.company == company) db.store.zones))) [
      | inl n ↦ absurd (ground arith)
      | inr (z, ez) ↦
          withdraw-Plays env z actor reason o now db {r = r} (active_assignment db.assignments z.id)
            (ground (arith, ez))
    ]
