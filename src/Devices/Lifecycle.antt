-- ===== src/Devices/Lifecycle.antt =====
-- apps/devices/services.py: devices, their zones and their administrative status. An operation reads
-- the clock once, as `now`; a new row's key is an argument, and must be unused.
use brandy_manager_back.Prelude.{
  ℕ, ◌+◌, String, Option, none, some, List, [], ◌∷◌, Bool, false, not, ◌&&◌, ◌||◌, ◌==◌, is_none,
  is_some, or_else, exists, select, length, if◌then◌else◌,
}
use brandy_manager_back.Result.{
  Result, ok, err, validation_error, does_not_exist, integrity_error, device_limit_reached,
  device_zone_invalid, device_code_conflict,
}
use brandy_manager_back.Table.{get, save, insert, update}
use brandy_manager_back.Models.Organizations.{
  Site, Zone, site_is_archived, zone_is_archived, site_row, zone_row,
}
use brandy_manager_back.Billing.{reaches, LimitKey, company_limit}
use brandy_manager_back.Text.{Text, strip, upper, text_eq}
use brandy_manager_back.Devices.Models.{
  Device, DeviceType, DeviceStatus, AdministrativeStatus, ActivationStatus, ConnectivityStatus,
  AssignmentRole, DeviceZoneAssignment, DeviceActivation, DeviceCredential, CredentialStatus,
  DeviceState, PlaybackStatus, device_row, zone_assignment_row, activation_row, credential_row,
  state_row, is_archived, credential_is_active,
}
use brandy_manager_back.Devices.Store.{
  DeviceDb, DeviceEnv, D, ◌>>=◌, ◌>>◌, return, gets, inspect, or_raise, modify, raise_if,
  full_clean, assert_new,
}

unfoldable pub load_device : ℕ → D Device
load_device k = do or_raise (← gets (λ db. get k db.devices)) does_not_exist

-- `_active_device_count`, `_enforce_device_limit`
unfoldable pub active_device_count : ℕ → List Device → ℕ
active_device_count company devices =
    length (select (λ d. d.company == company && not (is_archived d.administrative_status)) devices)

unfoldable pub enforce_device_limit : ℕ → DeviceDb → Result (Unit {0})
enforce_device_limit company db =
    if reaches (active_device_count company db.devices)
      (company_limit LimitKey.devices db.plans db.subscriptions company)
    then err device_limit_reached
    else ok tt

-- `_ensure_zone_is_assignable`, on the zone as `select_related("site")` loads it
abbrev assignable : ℕ → Zone → Option Site → Result Zone
assignable company zone none = err does_not_exist
assignable company zone (some site) =
    if not (zone.company == company)
    then err device_zone_invalid
    else if zone_is_archived zone.status || site_is_archived site.status
    then err device_zone_invalid
    else ok zone

unfoldable pub ensure_zone_is_assignable : Zone → ℕ → DeviceDb → Result Zone
ensure_zone_is_assignable zone company db = assignable company zone (get zone.site db.sites)

unfoldable pub load_zone : ℕ → D Zone
load_zone k = do or_raise (← gets (λ db. get k db.zones)) does_not_exist

-- `_invalidate_device_credentials`
unfoldable pub invalidate_device_credentials : ℕ → ℕ → List DeviceCredential → List DeviceCredential
invalidate_device_credentials device at rows =
    update (λ c. c.device == device && credential_is_active c.status)
      (λ c. record c { status = CredentialStatus.revoked; revoked_at = some at }) rows

-- `_invalidate_activation_codes`
unfoldable pub invalidate_activation_codes : ℕ → ℕ → List DeviceActivation → List DeviceActivation
invalidate_activation_codes device at rows =
    update (λ a. a.device == device && (is_none a.consumed_at && is_none a.revoked_at))
      (λ a. record a { revoked_at = some at }) rows

-- An open assignment of the device.
abbrev pub is_open_for : ℕ → DeviceZoneAssignment → Bool
is_open_for device a = a.device == device && is_none a.unassigned_at

-- `full_clean`, with the constraint uniq_active_assignment_per_device, and the `INSERT`. `clean`
-- asks that the device and the zone are of the company of the row, which every caller has checked.
unfoldable pub insert_assignment : DeviceZoneAssignment → D (Unit {0})
insert_assignment a = do
  rows ← gets (λ db. db.zone_assignments)
  assert_new a.id rows
  raise_if (exists (is_open_for a.device) rows) (validation_error "__all__")
  modify (λ db. record db { zone_assignments = insert a db.zone_assignments })

-- `...filter(device=device, unassigned_at__isnull=True).update(...)`; the reason is set where given
unfoldable pub close_assignments :
    ℕ → ℕ → Option Text → List DeviceZoneAssignment → List DeviceZoneAssignment
close_assignments device now reason rows =
    update (is_open_for device)
      (λ a. record a { unassigned_at = some now; reason = or_else reason a.reason }) rows

-- `DeviceState.objects.filter(device=device).update(zone=zone)`
unfoldable pub move_state : ℕ → ℕ → List DeviceState → List DeviceState
move_state device zone rows =
    update (λ s. s.device == device) (λ s. record s { zone = some zone }) rows

unfoldable pub assign_device_to_zone :
    ℕ → ℕ → AssignmentRole → Text → ℕ → ℕ → D DeviceZoneAssignment
unfolding load_device load_zone insert_assignment
assign_device_to_zone device_id zone_id role reason new_id now = do
  device ← load_device device_id
  zone ← load_zone zone_id
  inspect (ensure_zone_is_assignable zone device.company)
  modify (λ db. record db {
    zone_assignments = close_assignments device.id now none db.zone_assignments;
  })
  let a : DeviceZoneAssignment = record {
    id = new_id;
    company = device.company;
    device = device.id;
    zone = zone.id;
    assignment_role = role;
    assigned_at = now;
    unassigned_at = none;
    reason = reason;
  }
  insert_assignment a
  modify (λ db. record db {
    devices =
        save
          (record device {
            zone = some zone.id;
            configuration_version = device.configuration_version + 1;
          })
          db.devices;
    states = move_state device.id zone.id db.states;
  })
  return a

abbrev pub nonempty_or : Text → Text → Text
nonempty_or [] b = b
nonempty_or (c ∷ cs) b = c ∷ cs

unfoldable pub replace_zone_device : ℕ → ℕ → Text → ℕ → ℕ → D DeviceZoneAssignment
replace_zone_device old_id new_device reason new_id now = do
  old ← or_raise (← gets (λ db. get old_id db.zone_assignments)) does_not_exist
  modify (λ db. record db {
    zone_assignments =
        save (record old { unassigned_at = some now; reason = nonempty_or reason old.reason })
          db.zone_assignments;
  })
  assign_device_to_zone new_device old.zone old.assignment_role reason new_id now

-- `Device.objects.filter(company=company, code=code)`
abbrev pub has_code : ℕ → Text → Device → Bool
has_code company code d = d.company == company && text_eq d.code code

-- `Device.clean`
abbrev zone_matches : ℕ → Option Zone → Option String
zone_matches company none = none
zone_matches company (some z) = if z.company == company then none else some "zone"

unfoldable pub device_clean : List Zone → Device → Option String
device_clean zones d = elim d.zone [ none ↦ none | some k ↦ zone_matches d.company (get k zones) ]

pub record DeviceData : Type 0 where
  pub id : ℕ
  pub assignment_id : ℕ
  pub zone_id : ℕ
  pub code : Text
  pub name : Text
  pub device_type : Option DeviceType
  pub configuration : Option String

-- the constructor call of `create_device`
unfoldable pub new_device : ℕ → ℕ → DeviceData → Device
new_device company zone data' = record {
  id = data'.id;
  company = company;
  zone = some zone;
  code = upper (strip data'.code);
  name = strip data'.name;
  device_type = or_else data'.device_type DeviceType.desktop_app;
  status = DeviceStatus.provisioning;
  administrative_status = AdministrativeStatus.active;
  activation_status = ActivationStatus.pending;
  connectivity_status = ConnectivityStatus.unknown;
  configuration = or_else data'.configuration "{}";
  configuration_version = 1;
  app_version = [];
  last_seen_at = none;
  activated_at = none;
  deactivated_at = none;
  revoked_at = none;
  archived_at = none;
  activation_user_agent = none;
}

-- the row that `DeviceState.objects.create(device=..., zone=...)` writes
abbrev pub new_state : ℕ → Option ℕ → DeviceState
new_state device zone = record {
  device = device;
  zone = zone;
  current_audio_content = none;
  playback_status = PlaybackStatus.stopped;
  position_ms = 0;
  volume = 60;
  is_online = false;
  last_heartbeat_at = none;
  manifest_version = none;
  schedule_version = none;
  last_sequence = 0;
}

unfoldable pub create_device : DeviceEnv → ℕ → DeviceData → ℕ → D Device
unfolding insert_assignment
create_device env company data' now = do
  inspect (enforce_device_limit company)
  zone ← or_raise (← gets (λ db. get data'.zone_id db.zones)) device_zone_invalid
  inspect (ensure_zone_is_assignable zone company)
  let d = new_device company zone.id data'
  raise_if (exists (has_code company d.code) (← gets (λ db. db.devices))) device_code_conflict
  full_clean (env.device_fields d) (device_clean (← gets (λ db. db.zones)) d)
  assert_new d.id (← gets (λ db. db.devices))
  modify (λ db. record db { devices = insert d db.devices })
  insert_assignment (record {
    id = data'.assignment_id;
    company = company;
    device = d.id;
    zone = zone.id;
    assignment_role = AssignmentRole.primary;
    assigned_at = now;
    unassigned_at = none;
    reason = [];
  })
  raise_if (is_some (get d.id (← gets (λ db. db.states)))) integrity_error
  modify (λ db. record db { states = insert (new_state d.id d.zone) db.states })
  return d
