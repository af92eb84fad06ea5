-- ===== src/Devices/Tests/Access.antt =====
-- Codes and credentials on the sample, and instances of their theorems.
use brandy_manager_back.Prelude.{ℕ, ◌≡◌, ◌≢◌, refl, none, some, [], ◌∷◌, ◌<◌}
use brandy_manager_back.Result.{
  ok, err, device_activation_invalid, device_credential_revoked, device_zone_invalid,
}
use brandy_manager_back.Text.{Text, upper, upper_char, without_spaces, without_dashes, is_space}
use brandy_manager_back.Devices.Models.{
  Device, DeviceStatus, AdministrativeStatus, ActivationStatus, ConnectivityStatus,
  DeviceActivation, DeviceCredential, CredentialStatus, device_row, command_row,
  zone_assignment_row, activation_is_active,
}
use brandy_manager_back.Devices.Store.{DeviceDb}
use brandy_manager_back.Devices.Lifecycle.{
  device_clean, load_device, invalidate_activation_codes, invalidate_device_credentials,
}
use brandy_manager_back.Devices.Administration.{
  revoke_device, set_device_administrative_status, assert_device_revision, archive_device_secrets,
  enforce_limit_on_activation, with_administrative_status,
}
use brandy_manager_back.Devices.Activation.{
  FreshCredential, generate_device_activation_code, validate_device_activation_code,
  complete_device_activation, find_activation, normalize_activation_code, format_activation_code,
  may_activate, zone_is_usable, get_active_activation_or_raise, new_device_credential,
  activated_device,
}
use brandy_manager_back.Devices.Credentials.{
  rotate_device_credential, check_credential, find_credential,
}
use brandy_manager_back.Devices.Requests.{DeviceRequest, run_device}
use brandy_manager_back.Devices.SingleUse.{complete-single_use}
use brandy_manager_back.Devices.Writes.{IsRevoked}
use brandy_manager_back.Devices.Revoked.{Reaches, Reaches-revoke_device}
use brandy_manager_back.Devices.Rotation.{rotate-renews}
use brandy_manager_back.Devices.Tests.Sample.{hash, env, code, printed, device, db}

abbrev activation : DeviceActivation
activation = record {
  id = 40;
  device = 1;
  code_hash = hash code;
  expires_at = 1000;
  attempts = 0;
  max_attempts = 5;
  consumed_at = none;
  revoked_at = none;
  last_attempt_at = none;
}

abbrev db_code : DeviceDb
db_code = record db { activations = activation ∷ [] }

generated :
    generate_device_activation_code env 1 code 40 100 db ≡ ok ((activation, printed), db_code)
unfolding generate_device_activation_code load_device invalidate_activation_codes may_activate
    format_activation_code
generated = refl

abbrev fresh : FreshCredential
fresh = record { id = 50; credential_id = 500; raw_secret = 1 ∷ [] }

abbrev activated : Device
activated = record device {
  activation_status = ActivationStatus.activated;
  connectivity_status = ConnectivityStatus.offline;
  status = DeviceStatus.offline;
  activated_at = some 200;
  configuration_version = 5;
}

abbrev credential : DeviceCredential
credential = record {
  id = 50;
  device = 1;
  credential_id = 500;
  secret_hash = hash (1 ∷ []);
  status = CredentialStatus.active;
  expires_at = some 6200;
  last_used_at = none;
  revoked_at = none;
  rotated_from = none;
}

abbrev db_active : DeviceDb
db_active = record db {
  activations = record activation { consumed_at = some 200; last_attempt_at = some 200 } ∷ [];
  credentials = credential ∷ [];
  devices = activated ∷ [];
}

completed :
    complete_device_activation env printed [] [] [] fresh 200 db_code
    ≡ ok ((activated, credential), db_active)
unfolding complete_device_activation load_device invalidate_device_credentials
    normalize_activation_code format_activation_code upper upper_char without_spaces without_dashes
    is_space may_activate zone_is_usable find_activation get_active_activation_or_raise
    activation_is_active new_device_credential activated_device
completed = refl

complete-single_use_example :
    (complete_device_activation env code [] [] [] fresh 300 db_active
      ≡ err device_activation_invalid)
    × (validate_device_activation_code env code 300 db_active ≡ err device_activation_invalid)
unfolding normalize_activation_code upper upper_char without_spaces without_dashes is_space
complete-single_use_example =
    complete-single_use env printed [] [] [] fresh 200 db_code completed code [] [] [] fresh 300
      refl

abbrev next : FreshCredential
next = record { id = 51; credential_id = 501; raw_secret = 2 ∷ [] }

abbrev rotated : DeviceCredential
rotated = record {
  id = 51;
  device = 1;
  credential_id = 501;
  secret_hash = hash (2 ∷ []);
  status = CredentialStatus.active;
  expires_at = some 6400;
  last_used_at = none;
  revoked_at = none;
  rotated_from = some 50;
}

abbrev db_rotated : DeviceDb
db_rotated = record db_active {
  credentials =
      record credential {
        status = CredentialStatus.revoked;
        revoked_at = some 400;
        last_used_at = some 400;
      }
      ∷ rotated
      ∷ [];
}

rotation :
    rotate_device_credential env 500 (1 ∷ []) next 400 db_active
    ≡ ok ((activated, rotated), db_rotated)
unfolding rotate_device_credential check_credential find_credential load_device may_activate
    new_device_credential
rotation = refl

rotate-renews_example :
    ((fresh' : FreshCredential) (now' : ℕ)
      → rotate_device_credential env 500 (1 ∷ []) fresh' now' db_rotated
        ≡ err device_credential_revoked)
    × ((now' : ℕ) → now' < 6400 → check_credential env 501 (2 ∷ []) now' db_rotated ≡ ok rotated)
rotate-renews_example = rotate-renews env 500 (1 ∷ []) next 400 db_active rotation

abbrev revoked : Device
revoked = record activated {
  activation_status = ActivationStatus.revoked;
  status = DeviceStatus.revoked;
  revoked_at = some 500;
  configuration_version = 6;
}

abbrev db_revoked : DeviceDb
db_revoked = record db_active {
  devices = revoked ∷ [];
  credentials = record credential { status = CredentialStatus.revoked; revoked_at = some 500 } ∷ [];
}

revocation : revoke_device 1 5 500 db_active ≡ ok (revoked, db_revoked)
unfolding revoke_device load_device assert_device_revision invalidate_device_credentials
    invalidate_activation_codes
revocation = refl

-- An attempt to put the revoked device back to active is accepted, and does not revive it.
abbrev restored : Device
restored = record revoked { status = DeviceStatus.provisioning; configuration_version = 7 }

abbrev db_restored : DeviceDb
db_restored = record db_revoked { devices = restored ∷ [] }

restoring :
    run_device env 600 (DeviceRequest.set_status 1 AdministrativeStatus.active 6) db_revoked
    ≡ ok (tt, db_restored)
unfolding run_device set_device_administrative_status load_device assert_device_revision
    archive_device_secrets enforce_limit_on_activation with_administrative_status device_clean
restoring = refl

Reaches-revoke_device_example :
    IsRevoked 1 db_restored.devices
    × ((raw : Text) (i at : ℕ)
        → generate_device_activation_code env 1 raw i at db_restored ≡ err device_zone_invalid)
    × ((raw : Text) (at : ℕ) (a : DeviceActivation)
        → find_activation env raw at db_restored ≡ ok a
        → a.device ≢ 1)
    × ((name : ℕ) (secret : Text) (fresh' : FreshCredential) (at : ℕ) (x : Device)
          (c : DeviceCredential) (db3 : DeviceDb)
        → rotate_device_credential env name secret fresh' at db_restored ≡ ok ((x, c), db3)
        → x.id ≢ 1)
Reaches-revoke_device_example = Reaches-revoke_device env 1 5 500 db_active revocation (
    Reaches.then 600 (DeviceRequest.set_status 1 AdministrativeStatus.active 6) restoring
      Reaches.here)
