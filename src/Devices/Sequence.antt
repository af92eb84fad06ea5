-- ===== src/Devices/Sequence.antt =====
-- What a batch of telemetry (apps/devices/services.py, `record_device_telemetry`) leaves behind.
use brandy_manager_back.Prelude.{
  ℕ, ◌+◌, ◌≤◌, ◌≡◌, sym, ap, ◌∙◌, subst, Option, some, List, [], ◌∷◌, ◌++◌, Bool, true, ◌||◌, arith,
  exists, length, Option-cases, inl, inr, Memᴰ,
}
use brandy_manager_back.Result.{ok, Result-cases}
use brandy_manager_back.Table.{get, save, insert, pk-get, get-save, get-insert_self}
use brandy_manager_back.Devices.Models.{
  Device, DeviceState, DeviceEvent, ContentManifest, AudioAsset, device_row, state_row,
}
use brandy_manager_back.Devices.Store.{DeviceDb, DeviceEnv}
use brandy_manager_back.Devices.Lifecycle.{new_state}
use brandy_manager_back.Devices.Telemetry.{
  Report, Tally, is_recorded, event_row, referenced_manifest, referenced_asset, record_event,
  state_after, device_after, handle_event, handle_events, record_device_telemetry,
}

exists-append :
    (p : DeviceEvent → Bool) (xs : List DeviceEvent) (x : DeviceEvent)
    → exists p (xs ++ x ∷ []) ≡ (exists p xs || p x)
exists-append p [] x = ground arith
exists-append p (y ∷ ys) x = ground (arith, exists-append p ys x)

-- From one tally to a later one: the device stays the same, no event is lost, and the sequence does
-- not go back.
record Advances (n : ℕ) (t t' : Tally) : Type 0 where
  same_id : t'.device.id ≡ t.device.id
  counted : t'.accepted + t'.duplicates ≡ t.accepted + t.duplicates + n
  forward : t.state.last_sequence ≤ t'.state.last_sequence
  same_state : t'.state.device ≡ t.state.device
  keeps :
      (k i : ℕ)
      → exists (is_recorded k i) t.events ≡ true
      → exists (is_recorded k i) t'.events ≡ true

record_event-Advances :
    (now : ℕ) (e : Report) (m : Option ContentManifest) (a : Option AudioAsset) (t : Tally)
    → Advances 1 t (record_event now e m a t)
unfolding record_event state_after device_after
record_event-Advances now e m a t = record {
  same_id = ground arith;
  counted = ground arith;
  forward = ground arith;
  same_state = ground arith;
  keeps =
      λ k i h. ground (arith, exists-append (is_recorded k i) t.events (event_row e m a t.device));
}

record_event-recorded :
    (now : ℕ) (e : Report) (m : Option ContentManifest) (a : Option AudioAsset) (t : Tally)
    → exists (is_recorded t.device.id e.event_id) (record_event now e m a t).events ≡ true
unfolding record_event
record_event-recorded now e m a t =
    ground (
      arith,
      exists-append (is_recorded t.device.id e.event_id) t.events (event_row e m a t.device),
    )

-- One event of the batch, with its references.
handled :
    (env : DeviceEnv) (db : DeviceDb) (now : ℕ) (e : Report) (t : Tally) {t' : Tally}
    → handle_event env db now e t ≡ ok t'
    → (m : Option ContentManifest) × (a : Option AudioAsset) × (t' ≡ record_event now e m a t)
unfolding handle_event
handled env db now e t h = elim (Result-cases (referenced_manifest db t.device e.manifest_id)) [
  | inl (x, q) ↦ absurd (ground arith)
  | inr (m, q) ↦ elim (Result-cases (referenced_asset db m e.asset_id)) [
    | inl (x, q') ↦ absurd (ground arith)
    | inr (a, q') ↦ (m, a, ground arith)
  ]
]

Advances-trans :
    {n k : ℕ} {t t' t'' : Tally} → Advances n t t' → Advances k t' t'' → Advances (n + k) t t''
Advances-trans a b = record {
  same_id = b.same_id ∙ a.same_id;
  counted = ground (arith, a.counted, b.counted);
  forward = ground (arith, a.forward, b.forward);
  same_state = b.same_state ∙ a.same_state;
  keeps = λ k i h. b.keeps k i (a.keeps k i h);
}

Advances-refl : (t : Tally) {t' : Tally} → ok t ≡ ok t' → Advances 0 t t'
Advances-refl t h = record {
  same_id = ground arith;
  counted = ground arith;
  forward = ground arith;
  same_state = ground arith;
  keeps = λ k i w. ground arith;
}

handled-Advances :
    (env : DeviceEnv) (db : DeviceDb) (now : ℕ) (e : Report) (t : Tally) {t' : Tally}
    → handle_event env db now e t ≡ ok t'
    → Advances 1 t t' × (exists (is_recorded t.device.id e.event_id) t'.events ≡ true)
handled-Advances env db now e t h =
    let (m, a, q) = handled env db now e t h in
    (
      subst (Advances 1 t) (sym q) (record_event-Advances now e m a t),
      subst (λ x. exists (is_recorded t.device.id e.event_id) x.events ≡ true) (sym q)
          (record_event-recorded now e m a t),
    )

all_handled :
    (env : DeviceEnv) (db : DeviceDb) (now : ℕ) (es : List Report) (t : Tally) {t' : Tally}
    → handle_events env db now es t ≡ ok t'
    → Advances (length es) t t'
      × ((e : Report) → Memᴰ e es → exists (is_recorded t.device.id e.event_id) t'.events ≡ true)
unfolding handle_events
all_handled env db now [] t h = (Advances-refl t h, λ e m. elim m [ ])
all_handled env db now (e ∷ es) t {t'} h = elim (Result-cases (handle_event env db now e t)) [
  | inl (x, q) ↦ absurd (ground (arith, q))
  | inr (t1, q) ↦
      let (one, here) = handled-Advances env db now e t q in
      let (more, there) = all_handled env db now es t1 {t' = t'} (ground (arith, q)) in
      (
        subst (λ n. Advances n t t') (ground arith) (Advances-trans one more),
        λ x m. elim m [
          | Memᴰ.head p ↦ more.keeps t.device.id x.event_id (rw p here)
          | Memᴰ.tail mx ↦
              subst (λ k. exists (is_recorded k x.event_id) t'.events ≡ true) one.same_id
                (there x mx)
        ],
      )
]

-- What an accepted batch leaves: every event of it is counted once, as accepted or as a duplicate, and
-- is recorded for the device; no event that was recorded before is lost; the device's state is stored,
-- and its last sequence has not gone back.
pub record IsRecorded (k : ℕ) (es : List Report) (db : DeviceDb) (t : Tally) (db' : DeviceDb)
    : Type 0 where
  pub counted : t.accepted + t.duplicates ≡ length es
  pub recorded : (e : Report) → Memᴰ e es → exists (is_recorded k e.event_id) db'.events ≡ true
  pub kept :
      (i : ℕ)
      → exists (is_recorded k i) db.events ≡ true
      → exists (is_recorded k i) db'.events ≡ true
  pub stored : get k db'.states ≡ some t.state
  pub forward :
      (s : DeviceState) → get k db.states ≡ some s → s.last_sequence ≤ t.state.last_sequence

abbrev start : DeviceDb → Device → DeviceState → Tally
start db d s = record { events = db.events; state = s; device = d; accepted = 0; duplicates = 0 }

-- From the loop's start on a state that is stored, in a database with the same events.
finished :
    (env : DeviceEnv) (k : ℕ) (es : List Report) (now : ℕ) (db db1 : DeviceDb) (d : Device)
    (s : DeviceState) {t : Tally} {db' : DeviceDb}
    → handle_events env db1 now es (start db d s) ≡ ok t
    → d.id ≡ k
    → get k db1.states ≡ some s
    → ((x : DeviceState) → get k db.states ≡ some x → x ≡ s)
    → db'.events ≡ t.events
    → db'.states ≡ save t.state db1.states
    → IsRecorded k es db t db'
finished env k es now db db1 d s {t} {db'} h key stored old events states =
    let (a, all) = all_handled env db1 now es (start db d s) h in
    let own : t.state.device ≡ k = a.same_state ∙ pk-get k db1.states stored in
    record {
      counted = ground (arith, a.counted);
      recorded = λ e m.
          ap (exists (is_recorded k e.event_id)) events
          ∙ subst (λ j. exists (is_recorded j e.event_id) t.events ≡ true) key (all e m);
      kept = λ i w. ap (exists (is_recorded k i)) events ∙ a.keeps k i w;
      stored = rw states (
          ap (λ j. get j (save t.state db1.states)) (sym own)
          ∙ get-save t.state db1.states (ap (λ j. get j db1.states) own ∙ stored));
      forward =
          λ x w. subst (λ y. y.last_sequence ≤ t.state.last_sequence) (sym (old x w)) a.forward;
    }

-- Every accepted batch of telemetry leaves its events recorded and counted, and the state in order.
pub telemetry-IsRecorded :
    (env : DeviceEnv) (k : ℕ) (es : List Report) (now : ℕ) (db : DeviceDb) {t : Tally}
    {db' : DeviceDb}
    → record_device_telemetry env k es now db ≡ ok (t, db')
    → IsRecorded k es db t db'
unfolding record_device_telemetry
telemetry-IsRecorded env k es now db {t} {db'} h = elim (Option-cases (get k db.devices)) [
  | inl n ↦ absurd (ground arith)
  | inr (d, l) ↦
      let key : d.id ≡ k = pk-get k db.devices l in
      elim (Option-cases (get d.id db.states)) [
        | inr (s, ls) ↦ elim (Result-cases (handle_events env db now es (start db d s))) [
          | inl (x, q) ↦ absurd (ground (arith, l, ls, q))
          | inr (t1, q) ↦
              finished env k es now db db d s (ground (arith, l, ls, q)) key
                (ap (λ j. get j db.states) (sym key) ∙ ls)
                (λ x w. ground (arith, ls, w, ap (λ j. get j db.states) key))
                (ground (arith, l, ls, q)) (ground (arith, l, ls, q))
        ]
        | inl n ↦
            let s = new_state d.id d.zone in
            let db1 = record db { states = insert s db.states } in
            elim (Result-cases (handle_events env db1 now es (start db d s))) [
              | inl (x, q) ↦ absurd (ground (arith, l, n, q))
              | inr (t1, q) ↦
                  finished env k es now db db1 d s (ground (arith, l, n, q)) key
                    (ap (λ j. get j (insert s db.states)) (sym key) ∙ get-insert_self s db.states n)
                    (λ x w. absurd (ground (arith, n, w, ap (λ j. get j db.states) key)))
                    (ground (arith, l, n, q)) (ground (arith, l, n, q))
            ]
      ]
]
