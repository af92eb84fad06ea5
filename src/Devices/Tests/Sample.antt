-- ===== src/Devices/Tests/Sample.antt =====
-- A company with one device, for the tests of the devices app.
use brandy_manager_back.Prelude.{ℕ, ◌+◌, ◌*◌, none, some, [], ◌∷◌, true}
use brandy_manager_back.Models.Organizations.{SiteStatus, ZoneStatus}
use brandy_manager_back.Billing.{SubscriptionStatus, LimitKey}
use brandy_manager_back.Text.{Text}
use brandy_manager_back.Devices.Models.{
  Device, DeviceType, DeviceStatus, AdministrativeStatus, ActivationStatus, ConnectivityStatus,
  AssignmentRole, DeviceZoneAssignment, device_row, command_row, zone_assignment_row,
}
use brandy_manager_back.Devices.Store.{DeviceDb, DeviceEnv}
use brandy_manager_back.Devices.Lifecycle.{new_state}

abbrev pub hash : Text → ℕ
hash [] = 7
hash (c ∷ cs) = c + 131 * hash cs

abbrev pub env : DeviceEnv
env = record {
  hmac = hash;
  device_fields = λ d. true;
  activation_code_ttl = 900;
  activation_max_attempts = 5;
  refresh_token_lifetime = 6000;
  command_batch_size = 1;
  telemetry_max_age = 1000;
  telemetry_future_skew = 10;
}

-- ABCDEFGH2345
abbrev pub code : Text
code = 65 ∷ 66 ∷ 67 ∷ 68 ∷ 69 ∷ 70 ∷ 71 ∷ 72 ∷ 50 ∷ 51 ∷ 52 ∷ 53 ∷ []

-- ABCD-EFGH-2345
abbrev pub printed : Text
printed = 65 ∷ 66 ∷ 67 ∷ 68 ∷ 45 ∷ 69 ∷ 70 ∷ 71 ∷ 72 ∷ 45 ∷ 50 ∷ 51 ∷ 52 ∷ 53 ∷ []

abbrev pub device : Device
device = record {
  id = 1;
  company = 9;
  zone = some 30;
  code = 65 ∷ [];
  name = 66 ∷ [];
  device_type = DeviceType.desktop_app;
  status = DeviceStatus.provisioning;
  administrative_status = AdministrativeStatus.active;
  activation_status = ActivationStatus.pending;
  connectivity_status = ConnectivityStatus.unknown;
  configuration = "{}";
  configuration_version = 4;
  app_version = [];
  last_seen_at = none;
  activated_at = none;
  deactivated_at = none;
  revoked_at = none;
  archived_at = none;
  activation_user_agent = none;
}

abbrev pub in_zone : DeviceZoneAssignment
in_zone = record {
  id = 11;
  company = 9;
  device = 1;
  zone = 30;
  assignment_role = AssignmentRole.primary;
  assigned_at = 0;
  unassigned_at = none;
  reason = [];
}

abbrev pub db : DeviceDb
db = record {
  sites =
      record {
        id = 20;
        company = 9;
        name = [];
        code = [];
        archived_at = none;
        status = SiteStatus.active;
      }
      ∷ [];
  zones =
      record {
        id = 30;
        company = 9;
        site = 20;
        name = [];
        code = [];
        archived_at = none;
        status = ZoneStatus.active;
      }
      ∷ record {
        id = 31;
        company = 9;
        site = 20;
        name = [];
        code = [];
        archived_at = none;
        status = ZoneStatus.active;
      }
      ∷ [];
  plans = record { id = 3; limits = (LimitKey.devices, some 2) ∷ [] } ∷ [];
  subscriptions =
      record {
        id = 4;
        company = 9;
        plan = some 3;
        status = SubscriptionStatus.active;
        started_at = 0;
        created_at = 0;
        trial_ends_at = none;
        snapshot_limits = [];
        snapshot_feature_limits = [];
      }
      ∷ [];
  devices = device ∷ [];
  zone_assignments = in_zone ∷ [];
  activations = [];
  credentials = [];
  commands = [];
  states = new_state 1 (some 30) ∷ [];
  events = [];
  manifests = [];
  manifest_items = [];
  assets = [];
}
