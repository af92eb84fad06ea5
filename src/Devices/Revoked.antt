-- ===== src/Devices/Revoked.antt =====
-- A revoked device (apps/devices/services.py) has no way back.
use brandy_manager_back.Prelude.{
  ℕ, ◌≡◌, ◌≢◌, sym, ap, ◌∙◌, some, false, arith, Option-cases, inl, inr,
}
use brandy_manager_back.Result.{ok, err, device_zone_invalid, Result-cases}
use brandy_manager_back.Table.{get, save, pk-get, get-save}
use brandy_manager_back.Models.Organizations.{zone_row}
use brandy_manager_back.Text.{Text}
use brandy_manager_back.Devices.Models.{
  Device, DeviceActivation, DeviceCredential, device_row, zone_assignment_row,
  activation_is_revoked,
}
use brandy_manager_back.Devices.Store.{DeviceDb, DeviceEnv}
use brandy_manager_back.Devices.Administration.{revoke_device}
use brandy_manager_back.Devices.Activation.{
  FreshCredential, may_activate, find_activation, generate_device_activation_code,
}
use brandy_manager_back.Devices.Credentials.{check_credential, rotate_device_credential}
use brandy_manager_back.Devices.Requests.{DeviceRequest, run_device}
use brandy_manager_back.Devices.Writes.{IsRevoked, Write-IsRevoked, found_device, run-Write}

-- A history of accepted requests, each at its own instant.
pub data Reaches (env : DeviceEnv) : DeviceDb → DeviceDb → Type 0 where
  here : {db : DeviceDb} → Reaches env db db
  then :
      {db db1 db' : DeviceDb} (now : ℕ) (r : DeviceRequest)
      → run_device env now r db ≡ ok (tt, db1)
      → Reaches env db1 db'
      → Reaches env db db'

pub Reaches-IsRevoked :
    (env : DeviceEnv) (k : ℕ) {db db' : DeviceDb}
    → Reaches env db db'
    → IsRevoked k db.devices
    → IsRevoked k db'.devices
Reaches-IsRevoked env k here w = w
Reaches-IsRevoked env k (then {db} now r h rest) w =
    Reaches-IsRevoked env k rest (Write-IsRevoked k (run-Write env now r db h) w)

revoke_device-IsRevoked :
    (k e now : ℕ) (db : DeviceDb) {d : Device} {db' : DeviceDb}
    → revoke_device k e now db ≡ ok (d, db')
    → IsRevoked k db'.devices
unfolding revoke_device
revoke_device-IsRevoked k e now db {d} {db'} h = elim (Option-cases (get k db.devices)) [
  | inl n ↦ absurd (ground arith)
  | inr (old, l) ↦
      let key : d.id ≡ k = ground (arith, pk-get k db.devices l) in
      let kept : db'.devices ≡ save d db.devices = ground arith in
      (
        d,
        rw kept (
            ap (λ j. get j (save d db.devices)) (sym key)
            ∙ get-save d db.devices (ap (λ j. get j db.devices) key ∙ l)),
        ground arith,
      )
]

rotated_device :
    (env : DeviceEnv) (name : ℕ) (secret : Text) (fresh : FreshCredential) (at : ℕ) (db : DeviceDb)
    {x : Device} {c : DeviceCredential} {db' : DeviceDb}
    → rotate_device_credential env name secret fresh at db ≡ ok ((x, c), db')
    → (get x.id db.devices ≡ some x) × (activation_is_revoked x.activation_status ≡ false)
unfolding rotate_device_credential
rotated_device env name secret fresh at db {x} h =
    elim (Result-cases (check_credential env name secret at db)) [
      | inl (e, q) ↦ absurd (ground arith)
      | inr (old, q) ↦
          let stored : get old.device db.devices ≡ some x = ground arith in
          (ap (λ j. get j db.devices) (pk-get old.device db.devices stored) ∙ stored, ground arith)
    ]

-- No way back: once a device has been revoked, after any later history of accepted requests it is
-- still revoked, is given no activation code, and no code and no credential of it is accepted.
pub Reaches-revoke_device :
    (env : DeviceEnv) (k e now : ℕ) (db : DeviceDb) {d : Device} {db1 db2 : DeviceDb}
    → revoke_device k e now db ≡ ok (d, db1)
    → Reaches env db1 db2
    → IsRevoked k db2.devices
      × ((raw : Text) (i at : ℕ)
          → generate_device_activation_code env k raw i at db2 ≡ err device_zone_invalid)
      × ((raw : Text) (at : ℕ) (a : DeviceActivation)
          → find_activation env raw at db2 ≡ ok a
          → a.device ≢ k)
      × ((name : ℕ) (secret : Text) (fresh : FreshCredential) (at : ℕ) (x : Device)
            (c : DeviceCredential) (db3 : DeviceDb)
          → rotate_device_credential env name secret fresh at db2 ≡ ok ((x, c), db3)
          → x.id ≢ k)
unfolding generate_device_activation_code may_activate
Reaches-revoke_device env k e now db {db2 = db2} h path =
    let (d, g, r) = Reaches-IsRevoked env k path (revoke_device-IsRevoked k e now db h) in
    (
      (d, g, r),
      λ raw i at. ground (arith, g, r),
      λ raw at a f q.
          ground (arith, r, found_device env raw at db2 f (ap (λ j. get j db2.devices) q ∙ g)),
      λ name secret fresh at x c db3 f q.
          let (stored, active) = rotated_device env name secret fresh at db2 f in
          ground (arith, r, active, g, sym (ap (λ j. get j db2.devices) q) ∙ stored),
    )
