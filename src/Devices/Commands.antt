-- ===== src/Devices/Commands.antt =====
-- apps/devices/services.py: the commands for a device, their delivery and their acknowledgement.
use brandy_manager_back.Prelude.{
  ℕ, ◌+◌, String, Option, none, some, List, map, Bool, true, false, not, ◌&&◌, ◌||◌, leb, ltb, ◌==◌,
  or_else, same_key, select, first, sort_by, exists, take, if◌then◌else◌,
}
use brandy_manager_back.Result.{Result, ok, err, playback_command_invalid, type_error}
use brandy_manager_back.Table.{get, save, insert, update}
use brandy_manager_back.Devices.Models.{
  Device, DeviceCommand, CommandType, CommandStatus, device_row, command_row,
}
use brandy_manager_back.Devices.Store.{
  DeviceDb, DeviceEnv, D, ◌>>=◌, ◌>>◌, return, gets, inspect, or_raise, modify, raise_if,
  assert_new,
}
use brandy_manager_back.Devices.Lifecycle.{load_device}

-- `approved_types`
unfoldable pub is_approved : CommandType → Bool
is_approved CommandType.set_volume = true
is_approved CommandType.mute = true
is_approved CommandType.unmute = true
is_approved CommandType.restart_playback = true
is_approved CommandType.force_sync = true
is_approved CommandType.enable = true
is_approved CommandType.disable = true
is_approved _ = false

-- A JSON payload by what the checks read of it: no key, `{"volume": n}` for an integer n, or any other.
pub data Payload : Type 0 where
  empty : Payload
  of_volume : ℕ → Payload
  other : Payload

-- The payload checks; the answer is the volume to store. A volume below zero is an `other` payload.
unfoldable pub check_payload : CommandType → Payload → Result (Option ℕ)
check_payload CommandType.set_volume (Payload.of_volume v) =
    if leb v 100 then ok (some v) else err (playback_command_invalid "volume")
check_payload CommandType.set_volume _ = err (playback_command_invalid "payload")
check_payload _ Payload.empty = ok none
check_payload _ _ = err (playback_command_invalid "payload")

-- `command_family`: whether a pending command of the second type gives way to one of the first
unfoldable pub in_family : CommandType → CommandType → Bool
in_family CommandType.set_volume t = elim t [
  | CommandType.set_volume ↦ true
  | CommandType.mute ↦ true
  | CommandType.unmute ↦ true
  | _ ↦ false
]
in_family CommandType.mute t = elim t [
  | CommandType.set_volume ↦ true
  | CommandType.mute ↦ true
  | CommandType.unmute ↦ true
  | _ ↦ false
]
in_family CommandType.unmute t = elim t [
  | CommandType.set_volume ↦ true
  | CommandType.mute ↦ true
  | CommandType.unmute ↦ true
  | _ ↦ false
]
in_family CommandType.enable t = elim t [
  | CommandType.enable ↦ true
  | CommandType.disable ↦ true
  | _ ↦ false
]
in_family CommandType.disable t = elim t [
  | CommandType.enable ↦ true
  | CommandType.disable ↦ true
  | _ ↦ false
]
in_family _ t = false

abbrev pub is_pending : CommandStatus → Bool
is_pending CommandStatus.pending = true
is_pending _ = false

-- PENDING or DELIVERED
abbrev pub is_open : CommandStatus → Bool
is_open CommandStatus.pending = true
is_open CommandStatus.delivered = true
is_open _ = false

-- EXECUTED or FAILED
abbrev pub is_terminal : CommandStatus → Bool
is_terminal CommandStatus.executed = true
is_terminal CommandStatus.failed = true
is_terminal _ = false

-- the first command of the company with this idempotency key
unfoldable pub find_by_key : ℕ → Option ℕ → List DeviceCommand → Option DeviceCommand
find_by_key company none rows = none
find_by_key company (some key) rows =
    first (select (λ c. c.company == company && same_key c.idempotency_key (some key)) rows)

abbrev pub gives_way : ℕ → CommandType → DeviceCommand → Bool
gives_way device t c = c.device == device && (in_family t c.command_type && is_pending c.status)

unfoldable pub cancel_family : ℕ → CommandType → List DeviceCommand → List DeviceCommand
cancel_family device t rows =
    update (gives_way device t) (λ c. record c { status = CommandStatus.cancelled }) rows

pub record CommandData : Type 0 where
  pub id : ℕ
  pub command_type : CommandType
  pub payload : Payload
  pub expires_at : Option ℕ
  pub idempotency_key : Option ℕ

-- five minutes
abbrev pub default_lifetime : ℕ
default_lifetime = 300000000

unfoldable pub new_command : Device → CommandData → Option ℕ → ℕ → DeviceCommand
new_command device data' volume now = record {
  id = data'.id;
  company = device.company;
  device = device.id;
  command_type = data'.command_type;
  volume = volume;
  status = CommandStatus.pending;
  created_at = now;
  expires_at = some (or_else data'.expires_at (now + default_lifetime));
  delivered_at = none;
  acknowledged_at = none;
  executed_at = none;
  result = "{}";
  error_message = "";
  idempotency_key = data'.idempotency_key;
}

unfoldable pub insert_command : Device → CommandData → Option ℕ → ℕ → D DeviceCommand
insert_command device data' volume now = do
  modify (λ db. record db { commands = cancel_family device.id data'.command_type db.commands })
  let c = new_command device data' volume now
  assert_new c.id (← gets (λ db. db.commands))
  modify (λ db. record db { commands = insert c db.commands })
  return c

-- `existing`, or what follows
abbrev existing_or : Option DeviceCommand → D DeviceCommand → D DeviceCommand
existing_or none m = m
existing_or (some c) m = return c

unfoldable pub create_device_command : Device → CommandData → ℕ → D DeviceCommand
unfolding is_approved check_payload find_by_key insert_command load_device
create_device_command device data' now = do
  raise_if (not (is_approved data'.command_type)) (playback_command_invalid "command_type")
  volume ← inspect (λ db. check_payload data'.command_type data'.payload)
  existing ← gets (λ db. find_by_key device.company data'.idempotency_key db.commands)
  existing_or existing (load_device device.id >> insert_command device data' volume now)

-- `expires_at__lte=now` and `expires_at__gt=now`; SQL makes both false for NULL
abbrev pub due : Option ℕ → ℕ → Bool
due none now = false
due (some t) now = leb t now

abbrev pub not_due : Option ℕ → ℕ → Bool
not_due none now = false
not_due (some t) now = ltb now t

-- The first statement of `deliver_device_commands`: open commands whose time is over expire.
unfoldable pub expire_commands : ℕ → ℕ → List DeviceCommand → List DeviceCommand
expire_commands device now rows =
    update (λ c. c.device == device && (is_open c.status && due c.expires_at now))
      (λ c. record c { status = CommandStatus.expired }) rows

-- `order_by("created_at", "id")`
abbrev pub older_command : DeviceCommand → DeviceCommand → Bool
older_command a b = ltb a.created_at b.created_at || a.created_at == b.created_at && ltb a.id b.id

abbrev pub deliverable : ℕ → ℕ → DeviceCommand → Bool
deliverable device now c = c.device == device && (is_open c.status && not_due c.expires_at now)

unfoldable pub command_batch : ℕ → ℕ → ℕ → List DeviceCommand → List DeviceCommand
unfolding sort_by
command_batch size device now rows =
    take size (sort_by older_command (select (deliverable device now) rows))

-- A pending command becomes DELIVERED.
unfoldable pub mark_delivered : ℕ → DeviceCommand → DeviceCommand
mark_delivered now c =
    if is_pending c.status
    then record c { status = CommandStatus.delivered; delivered_at = some now }
    else c

-- `filter(id__in=pending_ids).update(...)`
unfoldable pub deliver_batch : ℕ → List DeviceCommand → List DeviceCommand → List DeviceCommand
deliver_batch now batch rows =
    update (λ c. exists (λ b. b.id == c.id && is_pending b.status) batch)
      (λ c. record c { status = CommandStatus.delivered; delivered_at = some now }) rows

unfoldable pub deliver_device_commands :
    DeviceEnv → ℕ → ℕ → DeviceDb → List DeviceCommand × DeviceDb
unfolding expire_commands command_batch mark_delivered deliver_batch
deliver_device_commands env device now db =
    let rows = expire_commands device now db.commands in
    let batch = command_batch env.command_batch_size device now rows in
    (map (mark_delivered now) batch, record db { commands = deliver_batch now batch rows })

-- what a player may answer (devices/serializers.py)
pub data Answer : Type 0 where
  acknowledged executed failed : Answer

abbrev pub answer_status : Answer → CommandStatus
answer_status Answer.acknowledged = CommandStatus.acknowledged
answer_status Answer.executed = CommandStatus.executed
answer_status Answer.failed = CommandStatus.failed

abbrev pub same_status : CommandStatus → Answer → Bool
same_status CommandStatus.acknowledged Answer.acknowledged = true
same_status CommandStatus.executed Answer.executed = true
same_status CommandStatus.failed Answer.failed = true
same_status _ _ = false

abbrev of_device : ℕ → Option DeviceCommand → Option DeviceCommand
of_device device none = none
of_device device (some c) = if c.device == device then some c else none

unfoldable pub answered : Answer → String → String → ℕ → DeviceCommand → DeviceCommand
answered answer result error_message now c = record c {
  status = answer_status answer;
  acknowledged_at = some (or_else c.acknowledged_at now);
  executed_at = (if is_terminal (answer_status answer) then some now else c.executed_at);
  result = result;
  error_message = error_message;
}

-- A command with a result: the same answer again is accepted and changes nothing.
abbrev keep_answer : Answer → DeviceCommand → D DeviceCommand
keep_answer answer c =
    raise_if (not (same_status c.status answer)) (type_error "message") >> return c

abbrev store_answer : DeviceCommand → D DeviceCommand
store_answer c = modify (λ db. record db { commands = save c db.commands }) >> return c

-- Each refusal calls `PlaybackCommandInvalid(message=...)`, and that class takes no `message`: Python
-- raises TypeError in its place. The status that is set on an expired command before is rolled back.
unfoldable pub acknowledge_device_command : ℕ → ℕ → Answer → String → String → ℕ → D DeviceCommand
unfolding answered
acknowledge_device_command device command_id answer result error_message now = do
  c ← or_raise (← gets (λ db. of_device device (get command_id db.commands))) (type_error "message")
  raise_if (due c.expires_at now) (type_error "message")
  if is_terminal c.status
      then keep_answer answer c
      else store_answer (answered answer result error_message now c)
