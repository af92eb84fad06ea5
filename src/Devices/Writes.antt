-- ===== src/Devices/Writes.antt =====
-- What each request of the devices app (apps/devices/services.py) writes to the table of devices.
use brandy_manager_back.Prelude.{
  ℕ, ◌+◌, ◌≡◌, sym, ap, ◌∙◌, none, some, List, true, false, ◌==◌, arith, Option-cases, Bool-cases,
  inl, inr, same_key, first, select,
}
use brandy_manager_back.Result.{ok, Result-cases}
use brandy_manager_back.Table.{get, save, insert, pk-get, get-save, get-save_ne, get-insert_ne}
use brandy_manager_back.Models.Organizations.{zone_row}
use brandy_manager_back.Text.{Text}
use brandy_manager_back.Devices.Models.{
  Device, DeviceZoneAssignment, DeviceActivation, DeviceCredential, AdministrativeStatus,
  AssignmentRole, device_row, zone_assignment_row, activation_is_revoked,
}
use brandy_manager_back.Transaction.{ran}
use brandy_manager_back.Devices.Store.{DeviceDb, DeviceEnv}
use brandy_manager_back.Devices.Lifecycle.{
  DeviceData, load_device, create_device, assign_device_to_zone, replace_zone_device, nonempty_or,
}
use brandy_manager_back.Devices.Administration.{
  DevicePatch, update_device, change_device_zone, move_device, set_device_administrative_status,
  with_administrative_status, revoke_device, archive_device_secrets, enforce_limit_on_activation,
}
use brandy_manager_back.Devices.Activation.{
  FreshCredential, normalize_activation_code, activated_device, may_activate, find_activation,
  generate_device_activation_code, validate_device_activation_code, complete_device_activation,
  get_active_activation_or_raise,
}
use brandy_manager_back.Devices.Credentials.{
  rotate_device_credential, revoke_device_credential_from_cookie,
}
use brandy_manager_back.Devices.Requests.{DeviceRequest, run_device}

-- What a request does to the table of devices: nothing, a new row, or a row saved under its key
-- that is revoked if it was.
pub data Write (xs ys : List Device) : Type 0 where
  unchanged : ys ≡ xs → Write xs ys
  inserted : (d : Device) → get d.id xs ≡ none → ys ≡ insert d xs → Write xs ys
  saved :
      (old d : Device) (k : ℕ)
      → get k xs ≡ some old
      → d.id ≡ old.id
      → ys ≡ save d xs
      → (activation_is_revoked old.activation_status ≡ true
          → activation_is_revoked d.activation_status ≡ true)
      → Write xs ys

-- The device stored under the key is revoked.
abbrev pub IsRevoked : ℕ → List Device → Type 0
IsRevoked k xs =
    (d : Device) × (get k xs ≡ some d) × (activation_is_revoked d.activation_status ≡ true)

pub Write-IsRevoked : (k : ℕ) {xs ys : List Device} → Write xs ys → IsRevoked k xs → IsRevoked k ys
Write-IsRevoked k (unchanged e) r = rw e r
Write-IsRevoked k {xs} (inserted d fresh e) (x, g, r) =
    (x, rw e (get-insert_ne d k xs (λ q. ground (arith, fresh, g, ap (λ j. get j xs) q)) ∙ g), r)
Write-IsRevoked k {xs} (saved old d j g i e keeps) (x, g', r) = elim (Bool-cases (d.id == k)) [
  | inl here ↦
      let key : d.id ≡ k = ground arith in
      let at : j ≡ k = sym (pk-get j xs g) ∙ sym i ∙ key in
      let stored : get d.id xs ≡ some old = ap (λ m. get m xs) (key ∙ sym at) ∙ g in
      (
        d,
        rw e (ap (λ m. get m (save d xs)) (sym key) ∙ get-save d xs stored),
        keeps (ground (arith, g, g', r, ap (λ m. get m xs) at)),
      )
  | inr away ↦ (x, rw e (get-save_ne d k xs (ground arith) ∙ g'), r)
]

abbrev pub Writes : DeviceDb → DeviceDb → Type 0
Writes db db' = Write db.devices db'.devices

-- The device of a usable code is not revoked.
pub found_device :
    (env : DeviceEnv) (raw : Text) (now : ℕ) (db : DeviceDb) {a : DeviceActivation} {d : Device}
    → find_activation env raw now db ≡ ok a
    → get a.device db.devices ≡ some d
    → activation_is_revoked d.activation_status ≡ false
unfolding find_activation may_activate
found_device env raw now db h l =
    elim (Option-cases (
      first
        (select (λ a. a.code_hash == env.hmac (normalize_activation_code raw)) db.activations))) [
          | inl n ↦ absurd (ground arith)
          | inr (a, e) ↦ ground (arith, e)
        ]

module _ (env : DeviceEnv) (now : ℕ) (db : DeviceDb) {db' : DeviceDb} where
  create-Write :
      (company : ℕ) (p : DeviceData) {d : Device}
      → create_device env company p now db ≡ ok (d, db')
      → Writes db db'
  unfolding create_device
  create-Write company p {d} h = inserted d (ground arith) (ground arith)

  update-Write :
      (k e : ℕ) (p : DevicePatch) {d : Device}
      → update_device env k e p db ≡ ok (d, db')
      → Writes db db'
  unfolding update_device
  update-Write k e p {d} h = elim (Option-cases (get k db.devices)) [
    | inl n ↦ absurd (ground arith)
    | inr (old, l) ↦ saved old d k l (ground arith) (ground arith) (ground arith)
  ]

  status-Write :
      (k : ℕ) (status : AdministrativeStatus) (e : ℕ) {d : Device}
      → set_device_administrative_status k status e now db ≡ ok (d, db')
      → Writes db db'
  unfolding set_device_administrative_status archive_device_secrets enforce_limit_on_activation
      with_administrative_status
  status-Write k status e {d} h = elim (Option-cases (get k db.devices)) [
    | inl n ↦ absurd (ground arith)
    | inr (old, l) ↦ elim status [
      | AdministrativeStatus.active ↦ saved old d k l (ground arith) (ground arith) (ground arith)
      | AdministrativeStatus.suspended ↦
          saved old d k l (ground arith) (ground arith) (ground arith)
      | AdministrativeStatus.archived ↦ saved old d k l (ground arith) (ground arith) (ground arith)
    ]
  ]

  revoke-Write : (k e : ℕ) {d : Device} → revoke_device k e now db ≡ ok (d, db') → Writes db db'
  unfolding revoke_device
  revoke-Write k e {d} h = elim (Option-cases (get k db.devices)) [
    | inl n ↦ absurd (ground arith)
    | inr (old, l) ↦ saved old d k l (ground arith) (ground arith) (ground arith)
  ]

  change_zone-Write :
      (k zone e : ℕ) (reason : Text) (i : ℕ) {d : Device}
      → change_device_zone k zone e reason i now db ≡ ok (d, db')
      → Writes db db'
  unfolding change_device_zone move_device
  change_zone-Write k zone e reason i {d} h = elim (Option-cases (get k db.devices)) [
    | inl n ↦ absurd (ground arith)
    | inr (old, l) ↦ elim (Option-cases (get zone db.zones)) [
      | inl n ↦ absurd (ground arith)
      | inr (z, lz) ↦ elim (Bool-cases (same_key old.zone (some z.id))) [
        | inl same ↦ unchanged (ground arith)
        | inr moved ↦ saved old d k l (ground arith) (ground arith) (ground arith)
      ]
    ]
  ]

  assign-Write :
      (k zone : ℕ) (role : AssignmentRole) (reason : Text) (i : ℕ) {a : DeviceZoneAssignment}
      → assign_device_to_zone k zone role reason i now db ≡ ok (a, db')
      → Writes db db'
  unfolding assign_device_to_zone
  assign-Write k zone role reason i h = elim (Option-cases (get k db.devices)) [
    | inl n ↦ absurd (ground arith)
    | inr (old, l) ↦ elim (Option-cases (get zone db.zones)) [
      | inl n ↦ absurd (ground arith)
      | inr (z, lz) ↦
          saved old
            (record old { zone = some z.id; configuration_version = old.configuration_version + 1 })
            k l (ground arith) (ground arith) (ground arith)
    ]
  ]

  generate-Write :
      (k : ℕ) (raw : Text) (i : ℕ) {r : DeviceActivation × Text}
      → generate_device_activation_code env k raw i now db ≡ ok (r, db')
      → Writes db db'
  unfolding generate_device_activation_code
  generate-Write k raw i h = unchanged (ground arith)

  validate-Write :
      (raw : Text) {d : Device}
      → validate_device_activation_code env raw now db ≡ ok (d, db')
      → Writes db db'
  unfolding validate_device_activation_code get_active_activation_or_raise load_device
  validate-Write raw h = unchanged (ground arith)

  rotate-Write :
      (name : ℕ) (secret : Text) (fresh : FreshCredential) {r : Device × DeviceCredential}
      → rotate_device_credential env name secret fresh now db ≡ ok (r, db')
      → Writes db db'
  unfolding rotate_device_credential
  rotate-Write name secret fresh h = unchanged (ground arith)

  complete-Write :
      (raw name agent version : Text) (fresh : FreshCredential) {d : Device} {c : DeviceCredential}
      → complete_device_activation env raw name agent version fresh now db ≡ ok ((d, c), db')
      → Writes db db'
  unfolding complete_device_activation get_active_activation_or_raise activated_device
  complete-Write raw name agent version fresh {d} {c} h =
      elim (Result-cases (find_activation env raw now db)) [
        | inl (x, q) ↦ absurd (ground arith)
        | inr (a, q) ↦ elim (Option-cases (get a.device db.devices)) [
          | inl n ↦ absurd (ground arith)
          | inr (old, l) ↦
              saved old d a.device l (ground arith) (ground arith)
                (λ r. absurd (ground (arith, found_device env raw now db q l)))
        ]
      ]

replace-Write :
    (env : DeviceEnv) (now : ℕ) (db : DeviceDb) (j k : ℕ) (reason : Text) (i : ℕ)
    {a : DeviceZoneAssignment} {db' : DeviceDb}
    → replace_zone_device j k reason i now db ≡ ok (a, db')
    → Writes db db'
unfolding replace_zone_device
replace-Write env now db j k reason i {a} {db'} h =
    elim (Option-cases (get j db.zone_assignments)) [
      | inl n ↦ absurd (ground arith)
      | inr (old, l) ↦
          let db1 = record db {
            zone_assignments =
                save
                  (record old { unassigned_at = some now; reason = nonempty_or reason old.reason })
                  db.zone_assignments;
          } in
          let h1 : assign_device_to_zone k old.zone old.assignment_role reason i now db1
              ≡ ok (a, db') =
            ground (arith, l) in
          assign-Write env now db1 k old.zone old.assignment_role reason i h1
    ]

pub run-Write :
    (env : DeviceEnv) (now : ℕ) (r : DeviceRequest) (db : DeviceDb) {u : Unit {0}} {db' : DeviceDb}
    → run_device env now r db ≡ ok (u, db')
    → Writes db db'
unfolding run_device revoke_device_credential_from_cookie
run-Write env now (DeviceRequest.create c p) db h =
    create-Write env now db c p (ran (create_device env c p now) h).1
run-Write env now (DeviceRequest.update k e p) db h =
    update-Write env now db k e p (ran (update_device env k e p) h).1
run-Write env now (DeviceRequest.change_zone k z e s i) db h =
    change_zone-Write env now db k z e s i (ran (change_device_zone k z e s i now) h).1
run-Write env now (DeviceRequest.assign k z role s i) db h =
    assign-Write env now db k z role s i (ran (assign_device_to_zone k z role s i now) h).1
run-Write env now (DeviceRequest.replace j k s i) db h =
    replace-Write env now db j k s i (ran (replace_zone_device j k s i now) h).1
run-Write env now (DeviceRequest.set_status k s e) db h =
    status-Write env now db k s e (ran (set_device_administrative_status k s e now) h).1
run-Write env now (DeviceRequest.revoke k e) db h =
    revoke-Write env now db k e (ran (revoke_device k e now) h).1
run-Write env now (DeviceRequest.generate_code k raw i) db h =
    generate-Write env now db k raw i (ran (generate_device_activation_code env k raw i now) h).1
run-Write env now (DeviceRequest.validate_code raw) db h =
    validate-Write env now db raw (ran (validate_device_activation_code env raw now) h).1
run-Write env now (DeviceRequest.complete raw a b c fresh) db h =
    complete-Write env now db raw a b c fresh
      (ran (complete_device_activation env raw a b c fresh now) h).1
run-Write env now (DeviceRequest.rotate name secret fresh) db h =
    rotate-Write env now db name secret fresh
      (ran (rotate_device_credential env name secret fresh now) h).1
run-Write env now (DeviceRequest.logout name secret) db h = unchanged (ground arith)
