-- ===== src/Devices/Tests/Commands.antt =====
-- Commands and telemetry on the sample, and instances of their theorems.
use brandy_manager_back.Prelude.{
  ◌+◌, ◌≡◌, refl, sym, ◌∙◌, none, some, [], ◌∷◌, true, Memᴰ, mem-singleton, if◌then◌else◌,
}
use brandy_manager_back.Result.{ok, err, type_error}
use brandy_manager_back.Devices.Models.{
  DeviceStatus, ConnectivityStatus, DeviceCommand, CommandType, CommandStatus, device_row,
  command_row, zone_assignment_row,
}
use brandy_manager_back.Devices.Store.{DeviceDb}
use brandy_manager_back.Devices.Lifecycle.{new_state, load_device}
use brandy_manager_back.Devices.Commands.{
  Payload, CommandData, Answer, create_device_command, acknowledge_device_command,
  deliver_device_commands, same_status, default_lifetime, is_approved, check_payload, find_by_key,
  insert_command, cancel_family, in_family, new_command, answered,
}
use brandy_manager_back.Devices.Delivery.{acknowledge-final, IsDelivery, deliver-IsDelivery}
use brandy_manager_back.Devices.Families.{create_command-idempotent, create_command-exclusive}
use brandy_manager_back.Devices.Tests.Sample.{env, device, db}
use brandy_manager_back.Devices.Telemetry.{
  Report, event_row, Tally, record_device_telemetry, handle_events, handle_event,
  referenced_manifest, referenced_asset, record_event, state_after, device_after, load_state,
}
use brandy_manager_back.Devices.Sequence.{IsRecorded, telemetry-IsRecorded}
use brandy_manager_back.Devices.Models.{EventType}

abbrev mute : CommandData
mute = record {
  id = 60;
  command_type = CommandType.mute;
  payload = Payload.empty;
  expires_at = none;
  idempotency_key = none;
}

abbrev muted : DeviceCommand
muted = record {
  id = 60;
  company = 9;
  device = 1;
  command_type = CommandType.mute;
  volume = none;
  status = CommandStatus.pending;
  created_at = 10;
  expires_at = some (10 + default_lifetime);
  delivered_at = none;
  acknowledged_at = none;
  executed_at = none;
  result = "{}";
  error_message = "";
  idempotency_key = none;
}

abbrev louder : DeviceCommand
louder = record muted {
  id = 59;
  command_type = CommandType.set_volume;
  volume = some 80;
  created_at = 8;
}

abbrev db_louder : DeviceDb
db_louder = record db { commands = louder ∷ [] }

abbrev db_muted : DeviceDb
db_muted = record db { commands = record louder { status = CommandStatus.cancelled } ∷ muted ∷ [] }

muting : create_device_command device mute 10 db_louder ≡ ok (muted, db_muted)
unfolding create_device_command is_approved check_payload find_by_key insert_command cancel_family
    in_family new_command load_device
muting = refl

create_command-exclusive_example : muted ≡ muted
unfolding in_family
create_command-exclusive_example =
    create_command-exclusive device mute 10 db_louder muting refl muted (Memᴰ.tail (Memᴰ.head refl))
      refl

abbrev keyed : CommandData
keyed = record mute { idempotency_key = some 77 }

abbrev keyed_muted : DeviceCommand
keyed_muted = record muted { idempotency_key = some 77 }

abbrev db_keyed : DeviceDb
db_keyed = record db { commands = keyed_muted ∷ [] }

keyed_muting : create_device_command device keyed 10 db ≡ ok (keyed_muted, db_keyed)
unfolding create_device_command is_approved check_payload find_by_key insert_command cancel_family
    in_family new_command load_device
keyed_muting = refl

create_command-idempotent_example :
    create_device_command device keyed 15 db_keyed ≡ ok (keyed_muted, db_keyed)
create_command-idempotent_example =
    create_command-idempotent device keyed 10 15 77 db keyed_muting refl

deliver-IsDelivery_example :
    IsDelivery 1 1 20
      (deliver_device_commands env 1 20 db_keyed).0
      (deliver_device_commands env 1 20 db_keyed).1
deliver-IsDelivery_example =
    deliver-IsDelivery env 1 20 db_keyed (λ a b ma mb e. mem-singleton ma ∙ sym (mem-singleton mb))

abbrev executed : DeviceCommand
executed = record keyed_muted {
  status = CommandStatus.executed;
  acknowledged_at = some 30;
  executed_at = some 30;
}

abbrev db_executed : DeviceDb
db_executed = record db { commands = executed ∷ [] }

executing :
    acknowledge_device_command 1 60 Answer.executed "{}" "" 30 db_keyed ≡ ok (executed, db_executed)
unfolding acknowledge_device_command answered
executing = refl

-- FAILED is refused after EXECUTED.
acknowledge-final_example :
    acknowledge_device_command 1 60 Answer.failed "{}" "late" 40 db_executed ≡ (
      if same_status executed.status Answer.failed
      then ok (executed, db_executed)
      else err (type_error "message"))
acknowledge-final_example =
    acknowledge-final 1 60 Answer.executed "{}" "" 30 db_keyed executing refl Answer.failed "{}"
      "late" 40 refl

late_answer :
    acknowledge_device_command 1 60 Answer.failed "{}" "late" 40 db_executed
    ≡ err (type_error "message")
unfolding acknowledge_device_command
late_answer = refl

-- A heartbeat and, out of order, an event with a lower sequence number.
abbrev heartbeat : Report
heartbeat = record {
  event_id = 900;
  sequence = 5;
  event_type = EventType.heartbeat;
  occurred_at = 95;
  manifest_id = none;
  asset_id = none;
  position_ms = none;
  volume = some 30;
  playback_status = none;
}

abbrev late_offline : Report
late_offline = record heartbeat { event_id = 901; sequence = 4; event_type = EventType.offline }

abbrev tally : Tally
tally = record {
  events = event_row heartbeat none none device ∷ event_row late_offline none none device ∷ [];
  state = record (new_state 1 (some 30)) {
    last_sequence = 5;
    volume = 30;
    is_online = true;
    last_heartbeat_at = some 100;
  };
  device = record device {
    connectivity_status = ConnectivityStatus.online;
    status = DeviceStatus.online;
    last_seen_at = some 100;
  };
  accepted = 2;
  duplicates = 1;
}

abbrev db_reported : DeviceDb
db_reported = record db {
  events = tally.events;
  states = tally.state ∷ [];
  devices = tally.device ∷ [];
}

reporting :
    record_device_telemetry env 1 (heartbeat ∷ late_offline ∷ heartbeat ∷ []) 100 db
    ≡ ok (tally, db_reported)
unfolding record_device_telemetry load_device load_state handle_events handle_event
    referenced_manifest referenced_asset record_event state_after device_after
reporting = refl

telemetry-IsRecorded_example :
    IsRecorded 1 (heartbeat ∷ late_offline ∷ heartbeat ∷ []) db tally db_reported
telemetry-IsRecorded_example =
    telemetry-IsRecorded env 1 (heartbeat ∷ late_offline ∷ heartbeat ∷ []) 100 db reporting
