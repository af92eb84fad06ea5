-- ===== src/Devices/Tests/Fleet.antt =====
-- A second device and a move to another zone on the sample, and instances of their theorems.
use brandy_manager_back.Prelude.{◌≡◌, refl, none, some, [], ◌∷◌, ◌≤◌}
use brandy_manager_back.Result.{ok}
use brandy_manager_back.Billing.{
  LimitKey, company_limit, effective_limits, get_current_subscription_for_company, get_limit,
  normalize_limits, has_limit,
}
use brandy_manager_back.Text.{upper, upper_char, is_space, strip, lstrip, rstrip, text_eq}
use brandy_manager_back.Devices.Models.{Device, device_row, command_row, zone_assignment_row}
use brandy_manager_back.Devices.Store.{DeviceDb}
use brandy_manager_back.Devices.Lifecycle.{
  DeviceData, new_state, active_device_count, create_device, load_device, load_zone,
  insert_assignment, close_assignments, move_state, ensure_zone_is_assignable, enforce_device_limit,
  new_device, device_clean,
}
use brandy_manager_back.Devices.Administration.{
  change_device_zone, assert_device_revision, move_device,
}
use brandy_manager_back.Devices.Requests.{DeviceRequest, run_device}
use brandy_manager_back.Devices.Limit.{create_device-limit}
use brandy_manager_back.Devices.Tests.Sample.{env, device, in_zone, db}

abbrev second : DeviceData
second = record {
  id = 2;
  assignment_id = 12;
  zone_id = 31;
  code = 32 ∷ 99 ∷ [];
  name = 70 ∷ [];
  device_type = none;
  configuration = none;
}

abbrev second_device : Device
second_device = record device {
  id = 2;
  zone = some 31;
  code = 67 ∷ [];
  name = 70 ∷ [];
  configuration_version = 1;
}

abbrev db_two : DeviceDb
db_two = record db {
  devices = device ∷ second_device ∷ [];
  zone_assignments =
      in_zone ∷ record in_zone { id = 12; device = 2; zone = 31; assigned_at = 5 } ∷ [];
  states = new_state 1 (some 30) ∷ new_state 2 (some 31) ∷ [];
}

second_created : create_device env 9 second 5 db ≡ ok (second_device, db_two)
unfolding create_device enforce_device_limit active_device_count company_limit effective_limits
    get_current_subscription_for_company get_limit normalize_limits has_limit
    ensure_zone_is_assignable new_device strip lstrip rstrip is_space upper upper_char text_eq
    device_clean insert_assignment
second_created = refl

limit_of_two : company_limit LimitKey.devices db.plans db.subscriptions 9 ≡ some 2
unfolding company_limit effective_limits get_current_subscription_for_company get_limit
    normalize_limits has_limit
limit_of_two = refl

create_device-limit_example : active_device_count 9 db_two.devices ≤ 2
create_device-limit_example = create_device-limit env 9 second 5 db 2 second_created limit_of_two

abbrev moved : Device
moved = record device { zone = some 31; configuration_version = 5 }

abbrev db_moved : DeviceDb
db_moved = record db {
  devices = moved ∷ [];
  zone_assignments =
      record in_zone { unassigned_at = some 800 }
      ∷ record in_zone { id = 12; zone = 31; assigned_at = 800 }
      ∷ [];
  states = new_state 1 (some 31) ∷ [];
}

moving : run_device env 800 (DeviceRequest.change_zone 1 31 4 [] 12) db ≡ ok (tt, db_moved)
unfolding run_device change_device_zone move_device load_device load_zone assert_device_revision
    ensure_zone_is_assignable close_assignments insert_assignment move_state
moving = refl
