-- ===== src/Playback/Served.antt =====
-- Zones play what is assigned to them: what `create_zone_operational_snapshot` (apps/playback/services.py)
-- makes of the table of operational snapshots.
use mathlib.Core.Option
use brandy_manager_back.Prelude.{
  ℕ, ◌⊎◌, ◌≡◌, ◌≢◌, refl, sym, ap, ◌∙◌, subst, List, [], ◌∷◌, Bool, true, false, ◌&&◌, ◌==◌,
  is_some, arith, exists, mem-exists, exists-mem, Memᴰ, mem-append, append-mem_left,
  append-mem_right, mem-singleton, inl, inr, Option-cases, Bool-cases, ==→eq,
}
use brandy_manager_back.Result.{ok}
use brandy_manager_back.Table.{get, insert, pk-get, mem-update, update-mem}
use brandy_manager_back.Text.{Text}
use brandy_manager_back.Models.Organizations.{Zone, zone_row}
use brandy_manager_back.Models.Channels.{
  ZoneOperationalSnapshot, OperationalStatus, operational_is_ready, operational_row,
  active_assignment,
}
use brandy_manager_back.Channels.Store.{ChannelDb, ChannelEnv}
use brandy_manager_back.Playback.Snapshots.{
  assigned_snapshot, of_zone, supersede, insert_operational, operational_for,
  create_zone_operational_snapshot,
}

-- A snapshot that the zone may play from.
abbrev pub is_ready_in : ℕ → ZoneOperationalSnapshot → Bool
is_ready_in zone o = of_zone zone o && operational_is_ready o.status

-- A zone has at most one ready snapshot. It names the channel of the zone's open assignment, and the
-- latest published snapshot of that channel; with an open assignment there is one.
pub record IsServed (db : ChannelDb) (zone : ℕ) : Type 0 where
  pub one :
      (o p : ZoneOperationalSnapshot)
      → Memᴰ o db.operational
      → Memᴰ p db.operational
      → is_ready_in zone o ≡ true
      → is_ready_in zone p ≡ true
      → o ≡ p
  pub agrees :
      (o : ZoneOperationalSnapshot)
      → Memᴰ o db.operational
      → is_ready_in zone o ≡ true
      → (o.channel ≡ Option.map (λ a. a.channel) (active_assignment db.assignments zone))
        × (o.channel_snapshot
            ≡ Option.map
                (λ s. s.id)
                (assigned_snapshot db.snapshots (active_assignment db.assignments zone)))
  pub found :
      is_some (active_assignment db.assignments zone) ≡ true
      → exists (is_ready_in zone) db.operational ≡ true

-- The same table of snapshots, under an assignment that stands for the same snapshot.
pub IsServed-transport :
    {db db' : ChannelDb} (zone : ℕ)
    → db'.operational ≡ db.operational
    → active_assignment db'.assignments zone ≡ active_assignment db.assignments zone
    → assigned_snapshot db'.snapshots (active_assignment db.assignments zone)
      ≡ assigned_snapshot db.snapshots (active_assignment db.assignments zone)
    → IsServed db zone
    → IsServed db' zone
IsServed-transport {db} {db'} zone o a s v = record {
  one = λ x y mx my. v.one x y (subst (Memᴰ x) o mx) (subst (Memᴰ y) o my);
  agrees = λ x m r.
      let (c, e) = v.agrees x (subst (Memᴰ x) o m) r in
      (
        c ∙ sym (ap (Option.map (λ t. t.channel)) a),
        e ∙ sym (ap (Option.map (λ t. t.id)) (ap (assigned_snapshot db'.snapshots) a ∙ s)),
      );
  found = λ h. ap (exists (is_ready_in zone)) o ∙ v.found (sym (ap is_some a) ∙ h);
}

-- An accepted call adds one row to the superseded table, and changes nothing else.
pub record Created (env : ChannelEnv) (k i now : ℕ) (reason : Text) (db db' : ChannelDb)
    : Type 0 where
  pub zone : Zone
  pub is_zone : zone.id ≡ k
  pub result : db' ≡ record db {
    operational = insert (operational_for env db zone reason i now) (supersede k db.operational);
  }

pub create-Created :
    (env : ChannelEnv) (k : ℕ) (reason : Text) (i now : ℕ) (db : ChannelDb)
    {o : ZoneOperationalSnapshot} {db' : ChannelDb}
    → create_zone_operational_snapshot env k reason i now db ≡ ok (o, db')
    → Created env k i now reason db db'
unfolding create_zone_operational_snapshot insert_operational
create-Created env k reason i now db h = elim (Option-cases (get k db.store.zones)) [
  | inl n ↦ absurd (ground arith)
  | inr (z, e) ↦
      let q : z.id ≡ k = pk-get k db.store.zones e in
      record { zone = z; is_zone = q; result = ground (arith, q) }
]

-- A ready row of the new table is the new row, or an old row of another zone.
supersede-ready :
    (k zone : ℕ) {o : ZoneOperationalSnapshot} (rows : List ZoneOperationalSnapshot)
    → Memᴰ o (supersede k rows)
    → is_ready_in zone o ≡ true
    → Memᴰ o rows × (zone ≢ k)
unfolding supersede
supersede-ready k zone {o} rows m r =
    let (x, mx, q) =
      mem-update (is_ready_in k) (λ p. record p { status = OperationalStatus.superseded }) rows m in
    elim (Bool-cases (is_ready_in k x)) [
      | inl h ↦ absurd (ground (arith, q, h))
      | inr h ↦ (rw (q, h) mx, λ e. ground (arith, q, h, e))
    ]

supersede-kept :
    (k zone : ℕ) {o : ZoneOperationalSnapshot} (rows : List ZoneOperationalSnapshot)
    → zone ≢ k
    → Memᴰ o rows
    → is_ready_in zone o ≡ true
    → Memᴰ o (supersede k rows)
unfolding supersede
supersede-kept k zone {o} rows d m r =
    let f : ZoneOperationalSnapshot → ZoneOperationalSnapshot =
      λ p. record p { status = OperationalStatus.superseded } in
    let e : is_ready_in k o ≡ false = ground arith in
    subst (λ p. Memᴰ p (supersede k rows)) (rw e refl) (update-mem (is_ready_in k) f rows m)

module _ {env : ChannelEnv} {k i now : ℕ} {reason : Text} {db db' : ChannelDb}
    (c : Created env k i now reason db db') where
  added : ZoneOperationalSnapshot
  added = operational_for env db c.zone reason i now

  added-mem :
      {o : ZoneOperationalSnapshot}
      → Memᴰ o db'.operational
      → Memᴰ o (supersede k db.operational) ⊎ (o ≡ added)
  unfolding added
  added-mem {o} m =
      elim (mem-append (supersede k db.operational) (added ∷ [])
        (subst (Memᴰ o) (ap (λ x. x.operational) c.result) m)) [
          | inl old ↦ inl old
          | inr new ↦ inr (mem-singleton new)
        ]

  added-only :
      {o : ZoneOperationalSnapshot} → Memᴰ o db'.operational → is_ready_in k o ≡ true → o ≡ added
  added-only m r = elim (added-mem m) [
    | inl old ↦ absurd ((supersede-ready k k db.operational old r).1 refl)
    | inr q ↦ q
  ]

  pub Created-assignments : db'.assignments ≡ db.assignments
  Created-assignments = ap (λ x. x.assignments) c.result

  pub Created-channels : db'.channels ≡ db.channels
  Created-channels = ap (λ x. x.channels) c.result

  same_snapshots : db'.snapshots ≡ db.snapshots
  same_snapshots = ap (λ x. x.snapshots) c.result

  same_active :
      (zone : ℕ) → active_assignment db'.assignments zone ≡ active_assignment db.assignments zone
  same_active zone = ap (λ x. active_assignment x zone) Created-assignments

  same_assigned :
      (zone : ℕ)
      → assigned_snapshot db'.snapshots (active_assignment db'.assignments zone)
        ≡ assigned_snapshot db.snapshots (active_assignment db.assignments zone)
  same_assigned zone =
      ap (λ x. assigned_snapshot x (active_assignment db'.assignments zone)) same_snapshots
      ∙ ap (assigned_snapshot db.snapshots) (same_active zone)

  -- The zone of the call is served after it, whatever stood before.
  pub Created-IsServed : IsServed db' k
  unfolding added operational_for
  Created-IsServed =
      let q : c.zone.id ≡ k = c.is_zone in
      record {
        one = λ x y mx my rx ry. added-only mx rx ∙ sym (added-only my ry);
        agrees = λ x m r. (
          ap (λ o. o.channel) (added-only m r)
              ∙ ap (λ z. Option.map (λ a. a.channel) (active_assignment db.assignments z)) q
              ∙ sym (ap (Option.map (λ a. a.channel)) (same_active k)),
          ap (λ o. o.channel_snapshot) (added-only m r)
              ∙ ap
                  (λ z.
                    Option.map (λ s. s.id)
                      (assigned_snapshot db.snapshots (active_assignment db.assignments z)))
                  q
              ∙ sym (ap (Option.map (λ s. s.id)) (same_assigned k)),
        );
        found = λ h.
            mem-exists (is_ready_in k) db'.operational
              (subst (Memᴰ added) (sym (ap (λ x. x.operational) c.result))
                (append-mem_right (supersede k db.operational) (added ∷ []) (Memᴰ.head refl)))
              (ground (arith, q));
      }

  others-old :
      (zone : ℕ) {o : ZoneOperationalSnapshot}
      → zone ≢ k
      → Memᴰ o db'.operational
      → is_ready_in zone o ≡ true
      → Memᴰ o db.operational
  unfolding added operational_for
  others-old zone d m r = elim (added-mem m) [
    | inl old ↦ (supersede-ready k zone db.operational old r).0
    | inr q ↦
        absurd
          (d (sym (==→eq c.zone.id zone (ground (arith, ap (is_ready_in zone) q))) ∙ c.is_zone))
  ]

  -- Another zone is served as before.
  Created-others : (zone : ℕ) → zone ≢ k → IsServed db zone → IsServed db' zone
  unfolding added
  Created-others zone d v = record {
    one = λ x y mx my rx ry. v.one x y (others-old zone d mx rx) (others-old zone d my ry) rx ry;
    agrees = λ x m r.
        let (e, f) = v.agrees x (others-old zone d m r) r in
        (
          e ∙ sym (ap (Option.map (λ a. a.channel)) (same_active zone)),
          f ∙ sym (ap (Option.map (λ s. s.id)) (same_assigned zone)),
        );
    found = λ h.
        let (o, m, r) =
          exists-mem (is_ready_in zone) db.operational
            (v.found (sym (ap is_some (same_active zone)) ∙ h)) in
        mem-exists (is_ready_in zone) db'.operational
          (subst (Memᴰ o) (sym (ap (λ x. x.operational) c.result)) (
            append-mem_left (supersede k db.operational) (added ∷ [])
              (supersede-kept k zone db.operational d m r)))
          r;
  }

  pub Created-kept : (zone : ℕ) → IsServed db zone → IsServed db' zone
  Created-kept zone w = elim (Bool-cases (zone == k)) [
    | inl e ↦ subst (IsServed db') (sym (==→eq zone k e)) Created-IsServed
    | inr n ↦ Created-others zone (λ e. absurd (ground (arith, n, e))) w
  ]

  -- A call serves its zone, and leaves no other unserved.
  pub Created-all : ((zone : ℕ) → (zone ≡ k) ⊎ IsServed db zone) → (zone : ℕ) → IsServed db' zone
  Created-all v zone = elim (v zone) [
    | inl e ↦ subst (IsServed db') (sym e) Created-IsServed
    | inr w ↦ Created-kept zone w
  ]
