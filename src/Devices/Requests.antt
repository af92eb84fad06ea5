-- ===== src/Devices/Requests.antt =====
-- The operations of apps/devices/services.py that write devices, their zones, codes and credentials, as
-- one data type: a history of the devices app is a list of these, each at its instant.
use brandy_manager_back.Prelude.{ℕ}
use brandy_manager_back.Text.{Text}
use brandy_manager_back.Devices.Models.{AdministrativeStatus, AssignmentRole}
use brandy_manager_back.Devices.Store.{DeviceEnv, D, ◌>>◌, return, modify}
use brandy_manager_back.Devices.Lifecycle.{
  DeviceData, create_device, assign_device_to_zone, replace_zone_device,
}
use brandy_manager_back.Devices.Administration.{
  DevicePatch, update_device, change_device_zone, set_device_administrative_status, revoke_device,
}
use brandy_manager_back.Devices.Activation.{
  FreshCredential, generate_device_activation_code, validate_device_activation_code,
  complete_device_activation,
}
use brandy_manager_back.Devices.Credentials.{
  rotate_device_credential, revoke_device_credential_from_cookie,
}

pub data DeviceRequest : Type 0 where
  create : ℕ → DeviceData → DeviceRequest
  update : ℕ → ℕ → DevicePatch → DeviceRequest
  change_zone : ℕ → ℕ → ℕ → Text → ℕ → DeviceRequest
  assign : ℕ → ℕ → AssignmentRole → Text → ℕ → DeviceRequest
  replace : ℕ → ℕ → Text → ℕ → DeviceRequest
  set_status : ℕ → AdministrativeStatus → ℕ → DeviceRequest
  revoke : ℕ → ℕ → DeviceRequest
  generate_code : ℕ → Text → ℕ → DeviceRequest
  validate_code : Text → DeviceRequest
  complete : Text → Text → Text → Text → FreshCredential → DeviceRequest
  rotate : ℕ → Text → FreshCredential → DeviceRequest
  logout : ℕ → Text → DeviceRequest

unfoldable pub run_device : DeviceEnv → ℕ → DeviceRequest → D (Unit {0})
run_device env now (DeviceRequest.create company data') =
    create_device env company data' now >> return tt
run_device env now (DeviceRequest.update k e patch) = update_device env k e patch >> return tt
run_device env now (DeviceRequest.change_zone k zone e reason new_id) =
    change_device_zone k zone e reason new_id now >> return tt
run_device env now (DeviceRequest.assign k zone role reason new_id) =
    assign_device_to_zone k zone role reason new_id now >> return tt
run_device env now (DeviceRequest.replace old k reason new_id) =
    replace_zone_device old k reason new_id now >> return tt
run_device env now (DeviceRequest.set_status k status e) =
    set_device_administrative_status k status e now >> return tt
run_device env now (DeviceRequest.revoke k e) = revoke_device k e now >> return tt
run_device env now (DeviceRequest.generate_code k raw new_id) =
    generate_device_activation_code env k raw new_id now >> return tt
run_device env now (DeviceRequest.validate_code raw) =
    validate_device_activation_code env raw now >> return tt
run_device env now (DeviceRequest.complete raw name agent version fresh) =
    complete_device_activation env raw name agent version fresh now >> return tt
run_device env now (DeviceRequest.rotate name secret fresh) =
    rotate_device_credential env name secret fresh now >> return tt
run_device env now (DeviceRequest.logout name secret) =
    modify (revoke_device_credential_from_cookie env name secret now)
