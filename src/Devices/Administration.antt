-- ===== src/Devices/Administration.antt =====
-- apps/devices/services.py: what a manager changes on a device, each at an expected revision.
use brandy_manager_back.Prelude.{
  true, ℕ, ◌+◌, String, Option, none, some, Bool, false, not, ◌&&◌, ◌==◌, is_some, or_else,
  same_key, exists, if◌then◌else◌,
}
use brandy_manager_back.Result.{Result, ok, device_revision_conflict, device_code_conflict}
use brandy_manager_back.Table.{save, update}
use brandy_manager_back.Text.{Text, strip, upper}
use brandy_manager_back.Devices.Models.{
  Device, DeviceType, DeviceStatus, AdministrativeStatus, ActivationStatus, ConnectivityStatus,
  AssignmentRole, PlaybackStatus, device_row, state_row, is_archived, is_activated,
}
use brandy_manager_back.Devices.Store.{
  DeviceDb, DeviceEnv, D, ◌>>=◌, ◌>>◌, return, gets, inspect, modify, raise_if, full_clean,
}
use brandy_manager_back.Devices.Lifecycle.{
  load_device, load_zone, ensure_zone_is_assignable, enforce_device_limit,
  invalidate_device_credentials, invalidate_activation_codes, insert_assignment, close_assignments,
  move_state, has_code, device_clean,
}

-- `if device.configuration_version != expected_revision: raise DeviceRevisionConflict()`
unfoldable pub assert_device_revision : Device → ℕ → D (Unit {0})
assert_device_revision device expected =
    raise_if (not (device.configuration_version == expected)) device_revision_conflict

pub record DevicePatch : Type 0 where
  pub name : Option Text
  pub device_type : Option DeviceType
  pub configuration : Option String
  pub code : Option Text

-- `if "code" in data:` the code is normalized, and must be free
abbrev patched_code : Option Text → Device → Text
patched_code none device = device.code
patched_code (some code) device = upper (strip code)

abbrev pub other_has_code : Device → Text → Device → Bool
other_has_code device code d = not (d.id == device.id) && has_code device.company code d

unfoldable pub update_device : DeviceEnv → ℕ → ℕ → DevicePatch → D Device
unfolding load_device assert_device_revision
update_device env device_id expected_revision patch = do
  device ← load_device device_id
  assert_device_revision device expected_revision
  let code = patched_code patch.code device
  raise_if (is_some patch.code && exists (other_has_code device code) (← gets (λ db. db.devices)))
      device_code_conflict
  let d = record device {
    name = or_else patch.name device.name;
    device_type = or_else patch.device_type device.device_type;
    configuration = or_else patch.configuration device.configuration;
    code = code;
    configuration_version = device.configuration_version + 1;
  }
  full_clean (env.device_fields d) (device_clean (← gets (λ db. db.zones)) d)
  modify (λ db. record db { devices = save d db.devices })
  return d

-- The part of `change_device_zone` for a device that is not in the zone yet.
unfoldable pub move_device : Device → ℕ → Text → ℕ → ℕ → D Device
unfolding insert_assignment
move_device device zone_id reason new_id now = do
  modify (λ db. record db {
    zone_assignments = close_assignments device.id now (some reason) db.zone_assignments;
  })
  insert_assignment (record {
    id = new_id;
    company = device.company;
    device = device.id;
    zone = zone_id;
    assignment_role = AssignmentRole.primary;
    assigned_at = now;
    unassigned_at = none;
    reason = reason;
  })
  let d = record device {
    zone = some zone_id;
    configuration_version = device.configuration_version + 1;
  }
  modify (λ db. record db {
    devices = save d db.devices;
    states = move_state device.id zone_id db.states;
  })
  return d

unfoldable pub change_device_zone : ℕ → ℕ → ℕ → Text → ℕ → ℕ → D Device
unfolding load_device load_zone assert_device_revision move_device
change_device_zone device_id zone_id expected_revision reason new_id now = do
  device ← load_device device_id
  assert_device_revision device expected_revision
  zone ← load_zone zone_id
  inspect (ensure_zone_is_assignable zone device.company)
  if same_key device.zone (some zone.id)
      then return device
      else move_device device zone.id reason new_id now

-- The assignments to the row in `set_device_administrative_status`, for each of the three statuses.
unfoldable pub with_administrative_status : AdministrativeStatus → ℕ → Device → Device
with_administrative_status AdministrativeStatus.suspended now d = record d {
  administrative_status = AdministrativeStatus.suspended;
  status = DeviceStatus.disabled;
  deactivated_at = some now;
}
with_administrative_status AdministrativeStatus.archived now d = record d {
  administrative_status = AdministrativeStatus.archived;
  status = DeviceStatus.disabled;
  archived_at = some now;
}
with_administrative_status AdministrativeStatus.active now d = record d {
  administrative_status = AdministrativeStatus.active;
  archived_at = none;
  deactivated_at = none;
  status =
      (if is_activated d.activation_status
        then DeviceStatus.offline
        else DeviceStatus.provisioning);
}

-- An archived device loses its credentials and its codes.
unfoldable pub archive_device_secrets : AdministrativeStatus → ℕ → ℕ → DeviceDb → DeviceDb
archive_device_secrets AdministrativeStatus.archived device now db = record db {
  credentials = invalidate_device_credentials device now db.credentials;
  activations = invalidate_activation_codes device now db.activations;
}
archive_device_secrets _ device now db = db

-- `if device.administrative_status == ARCHIVED: _enforce_device_limit(...)`, in the branch of ACTIVE.
-- The row tested is the one to which the new status has been assigned before.
unfoldable pub enforce_limit_on_activation :
    AdministrativeStatus → Device → DeviceDb → Result (Unit {0})
enforce_limit_on_activation AdministrativeStatus.active device db =
    if is_archived device.administrative_status
    then enforce_device_limit device.company db
    else ok tt
enforce_limit_on_activation _ device db = ok tt

-- The save checks `Device.clean` too; no column that is written has a check of its own.
unfoldable pub set_device_administrative_status : ℕ → AdministrativeStatus → ℕ → ℕ → D Device
unfolding load_device assert_device_revision
set_device_administrative_status device_id administrative_status expected_revision now = do
  device ← load_device device_id
  assert_device_revision device expected_revision
  let assigned = record device { administrative_status = administrative_status }
  modify (archive_device_secrets administrative_status device.id now)
  inspect (enforce_limit_on_activation administrative_status assigned)
  let d = record (with_administrative_status administrative_status now assigned) {
    configuration_version = device.configuration_version + 1;
  }
  full_clean true (device_clean (← gets (λ db. db.zones)) d)
  modify (λ db. record db { devices = save d db.devices })
  return d

unfoldable pub revoke_device : ℕ → ℕ → ℕ → D Device
unfolding load_device assert_device_revision
revoke_device device_id expected_revision now = do
  device ← load_device device_id
  assert_device_revision device expected_revision
  let d = record device {
    activation_status = ActivationStatus.revoked;
    status = DeviceStatus.revoked;
    connectivity_status = ConnectivityStatus.offline;
    revoked_at = some now;
    configuration_version = device.configuration_version + 1;
  }
  modify (λ db. record db {
    credentials = invalidate_device_credentials device.id now db.credentials;
    activations = invalidate_activation_codes device.id now db.activations;
    devices = save d db.devices;
    states =
        update (λ s. s.device == device.id)
          (λ s. record s { is_online = false; playback_status = PlaybackStatus.stopped }) db.states;
  })
  return d
