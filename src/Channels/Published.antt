-- ===== src/Channels/Published.antt =====
-- Publishing a channel (apps/playlists/services.py) serves the zones that play it, archives no channel
-- and opens no assignment.
use brandy_manager_back.Prelude.{
  ℕ, refl, ◌+◌, suc, ◌≡◌, sym, ap, ◌∙◌, Option, none, some, List, [], ◌∷◌, arith, inl, inr,
  Option-cases, Bool-cases, select, subst, Memᴰ, exists,
}
use brandy_manager_back.Result.{ok, Result-cases}
use brandy_manager_back.Table.{HasUniqueKeys, get, save, pk-get, insert}
use brandy_manager_back.Text.{Text}
use brandy_manager_back.Models.Organizations.{zone_row}
use brandy_manager_back.Models.Channels.{
  Channel, ChannelStatus, ChannelSnapshot, ZoneChannelAssignment, Policy, channel_row,
  channel_is_published, channel_assignment_row, latest_channel_snapshot, channel_snapshot_row,
  ChannelPolicy,
}
use brandy_manager_back.Channels.Store.{ChannelDb, ChannelEnv, C}
use brandy_manager_back.Channels.Rows.{get_or_create_policy}
use brandy_manager_back.Channels.Lifecycle.{is_open_on}
use brandy_manager_back.Channels.Hashing.{channel_snapshot_payload}
use brandy_manager_back.Channels.Publishing.{
  channel_published, refresh_zones, snapshot_relations, published_snapshot, insert_channel_snapshot,
  publish_new_version, publish_channel, publish_checked, republish_channel, is_stale_channel,
  assert_channel_publishable, unchanged_since,
}
use brandy_manager_back.Channels.InUse.{Archives, same-Archives, published-Archives}
use brandy_manager_back.Channels.Quiet.{Quiet}
use brandy_manager_back.Channels.Served.{IsConsistent, Quiet-IsConsistent}
use brandy_manager_back.Channels.Stale.{refresh-IsServed, relations-same, stale-zones}
use brandy_manager_back.Channels.Playing.{Plays, same-Plays}
use brandy_manager_back.Playback.Snapshots.{create_zone_operational_snapshot}
use brandy_manager_back.Playback.Served.{create-Created, Created-assignments, Created-channels}

-- What a request keeps: that zones play what is assigned to them, and that no channel that is played is
-- archived.
pub record Keeps (db db' : ChannelDb) : Type 0 where
  pub consistent : IsConsistent db → IsConsistent db'
  pub plays : Plays db db'

-- The loop over zones leaves channels and assignments alone.
refresh-same :
    (env : ChannelEnv) (reason : Text) (fresh : ℕ → ℕ) (n now : ℕ)
    (rows : List ZoneChannelAssignment) (db : ChannelDb) {u : Unit {0}} {db' : ChannelDb}
    → refresh_zones env reason fresh n now rows db ≡ ok (u, db')
    → (db'.channels ≡ db.channels) × (db'.assignments ≡ db.assignments)
unfolding refresh_zones
refresh-same env reason fresh n now [] db h = ground arith
refresh-same env reason fresh n now (a ∷ as') db {u} {db'} h =
    elim (Result-cases (create_zone_operational_snapshot env a.zone reason (fresh n) now db)) [
      | inl (e, q) ↦ absurd (ground arith)
      | inr ((s, db1), q) ↦
          let c = create-Created env a.zone reason (fresh n) now db q in
          let (p, r) =
            refresh-same env reason fresh (suc n) now as' db1 {u = u} {db' = db'}
              (ground (arith, q)) in
          (p ∙ Created-channels c, r ∙ Created-assignments c)
    ]

publish_new-Keeps :
    (env : ChannelEnv) (c : Channel) (checksum : ℕ) (p : Policy) (actor : Option ℕ) (i : ℕ)
    (fresh zone_fresh : ℕ → ℕ) (now : ℕ) (db : ChannelDb) {r : ChannelSnapshot} {db' : ChannelDb}
    → publish_new_version env c checksum p actor i fresh zone_fresh now db ≡ ok (r, db')
    → get c.id db.channels ≡ some c
    → Keeps db db'
unfolding publish_new_version insert_channel_snapshot
publish_new-Keeps env c checksum p actor i fresh zone_fresh now db {r} {db'} h g =
    let s = published_snapshot c checksum p actor i now in
    let x = record c {
      current_version = c.current_version + 1;
      status = ChannelStatus.published;
      published_at = some now;
      revision = c.revision + 1;
    } in
    let db1 = record db { snapshots = insert s db.snapshots } in
    elim (Result-cases (snapshot_relations env c.id i fresh db1)) [
      | inl (e, q) ↦ absurd (ground arith)
      | inr ((u, db2), q) ↦
          let db3 = record db2 { channels = save x db2.channels } in
          let rows = select (is_open_on c.id) db2.assignments in
          let frame = relations-same env c.id i fresh db1 q in
          elim (Result-cases (refresh_zones env channel_published zone_fresh 0 now rows db3)) [
            | inl (e, q') ↦ absurd (ground (arith, q, q'))
            | inr ((w, db4), q') ↦
                let same : db' ≡ db4 = ground (arith, q, q') in
                let (ec, ea) = refresh-same env channel_published zone_fresh 0 now rows db3 q' in
                let sa : db2.assignments ≡ db.assignments = ap (λ y. y.assignments) frame in
                record {
                  consistent = λ v. subst IsConsistent (sym same) (record {
                    keys = subst HasUniqueKeys (sym (ea ∙ sa)) v.keys;
                    served = refresh-IsServed env channel_published zone_fresh 0 now rows db3 q' (
                        stale-zones db c.id s refl v.served db3 (ap (λ y. y.operational) frame) sa
                          (ap (λ y. y.snapshots) frame));
                  });
                  plays =
                      same-Plays db db'
                        (published-Archives db db' x c
                          (ap (λ y. y.channels) same ∙ ec ∙ ap (λ y. save x y.channels) frame) g
                          (ground arith))
                        (ap (λ y. y.assignments) same ∙ ea ∙ sa);
                }
          ]
    ]

get_or_create-Quiet :
    (k i : ℕ) (db : ChannelDb) {p : ChannelPolicy} {db' : ChannelDb}
    → get_or_create_policy k i db ≡ ok (p, db')
    → Quiet db db'
unfolding get_or_create_policy
get_or_create-Quiet k i db h = ground arith

policy-same :
    (k i : ℕ) (db : ChannelDb) {p : ChannelPolicy} {db' : ChannelDb}
    → get_or_create_policy k i db ≡ ok (p, db')
    → (db'.channels ≡ db.channels) × (db'.assignments ≡ db.assignments)
unfolding get_or_create_policy
policy-same k i db h = ground arith

Plays-after :
    (db db1 db' : ChannelDb)
    → db1.channels ≡ db.channels
    → db1.assignments ≡ db.assignments
    → Plays db1 db'
    → Plays db db'
Plays-after db db1 db' ec ea p = record {
  archives = λ k c g y. elim (p.archives k c g y) [
    | inl (old, h, q) ↦ inl (old, sym (ap (get k) ec) ∙ h, q)
    | inr n ↦ inr (sym (ap (exists (is_open_on k)) ea) ∙ n)
  ];
  opens =
      λ a m o. elim (p.opens a m o) [ inl old ↦ inl (subst (Memᴰ a) ea old) | inr new ↦ inr new ];
}

republish-Keeps :
    (c : Channel) (latest : ChannelSnapshot) (db : ChannelDb) {r : ChannelSnapshot}
    {db' : ChannelDb}
    → republish_channel c latest db ≡ ok (r, db')
    → get c.id db.channels ≡ some c
    → Keeps db db'
unfolding republish_channel
republish-Keeps c latest db {r} {db'} h g =
    let quiet : Quiet db db' = ground arith in
    let archives : Archives db db' = elim (Bool-cases (channel_is_published c.status)) [
      | inl y ↦ same-Archives db db' (ground (arith, y))
      | inr y ↦
          published-Archives db db'
            (record c {
              status = ChannelStatus.published;
              published_at = latest.published_at;
              revision = c.revision + 1;
            })
            c (ground (arith, y)) g (ground arith)
    ] in
    record {
      consistent = Quiet-IsConsistent quiet;
      plays = same-Plays db db' archives quiet.same_assignments;
    }

checked-Keeps :
    (c : Channel) (expected : Option ℕ) (latest : Option ChannelSnapshot)
    (publish : C ChannelSnapshot) (db : ChannelDb) {r : ChannelSnapshot} {db' : ChannelDb}
    → publish_checked c expected latest publish db ≡ ok (r, db')
    → get c.id db.channels ≡ some c
    → (publish db ≡ ok (r, db') → Keeps db db')
    → Keeps db db'
checked-Keeps c expected (some latest) publish db {r} {db'} h g new =
    elim (Bool-cases (is_stale_channel c expected)) [
      | inl e ↦
          let q : db ≡ db' = ground (arith, e) in
          record {
            consistent = subst IsConsistent q;
            plays =
                same-Plays db db' (same-Archives db db' (ap (λ x. x.channels) (sym q)))
                  (ap (λ x. x.assignments) (sym q));
          }
      | inr e ↦ republish-Keeps c latest db {r = r} (ground (arith, e)) g
    ]
checked-Keeps c expected none publish db h g new = elim (Bool-cases (is_stale_channel c expected)) [
  | inl e ↦ absurd (ground (arith, e))
  | inr e ↦ new (ground (arith, e))
]

publishable-same :
    (company : ℕ) (c : Channel) (db : ChannelDb) {u : Unit {0}} {db' : ChannelDb}
    → assert_channel_publishable company c db ≡ ok (u, db')
    → db ≡ db'
unfolding assert_channel_publishable
publishable-same company c db h = ground arith

pub publish-Keeps :
    (env : ChannelEnv) (k company : ℕ) (actor expected : Option ℕ) (policy i : ℕ)
    (fresh zone_fresh : ℕ → ℕ) (now : ℕ) (db : ChannelDb) {r : ChannelSnapshot} {db' : ChannelDb}
    → publish_channel env k company actor expected policy i fresh zone_fresh now db ≡ ok (r, db')
    → Keeps db db'
unfolding publish_channel
publish-Keeps env k company actor expected policy i fresh zone_fresh now db {r} {db'} h =
    elim (Option-cases (get k db.channels)) [
      | inl n ↦ absurd (ground arith)
      | inr (c, e) ↦ elim (Result-cases (assert_channel_publishable company c db)) [
        | inl (x, q) ↦ absurd (ground (arith, e, q))
        | inr ((u, db0), q0) ↦ elim (Result-cases (get_or_create_policy c.id policy db0)) [
          | inl (x, q) ↦ absurd (ground (arith, e, q0, q))
          | inr ((p, db1), q) ↦
              let checksum = env.channel_digest (channel_snapshot_payload env db1 c p.policy) in
              let (ec0, ea0) = policy-same c.id policy db0 q in
              let same = publishable-same company c db q0 in
              let ec = ec0 ∙ ap (λ x. x.channels) (sym same) in
              let g : get c.id db1.channels ≡ some c =
                ap (get c.id) ec ∙ ap (λ x. get x db.channels) (pk-get k db.channels e) ∙ e in
              let rest =
                checked-Keeps c expected
                  (unchanged_since checksum (latest_channel_snapshot db1.snapshots c.id))
                  (publish_new_version env c checksum p.policy actor i fresh zone_fresh now) db1
                  {r = r} {db' = db'} (ground (arith, e, q0, q)) g
                  (λ w.
                    publish_new-Keeps env c checksum p.policy actor i fresh zone_fresh now db1 w
                      g) in
              record {
                consistent = λ v. rest.consistent (
                    Quiet-IsConsistent (get_or_create-Quiet c.id policy db0 q)
                      (subst IsConsistent same v));
                plays =
                    Plays-after db db1 db' ec (ea0 ∙ ap (λ x. x.assignments) (sym same)) rest.plays;
              }
        ]
      ]
    ]
