-- ===== src/Devices/Telemetry.antt =====
-- apps/devices/services.py, lines 454 to 538: the events that a player reports, in batches.
use brandy_manager_back.Prelude.{
  ℕ, ◌+◌, Option, none, some, List, [], ◌∷◌, ◌++◌, Bool, true, false, not, ◌&&◌, leb, ◌==◌,
  same_key, or_else, exists, if◌then◌else◌,
}
use brandy_manager_back.Result.{Result, ok, err, does_not_exist, playback_command_invalid}
use brandy_manager_back.Table.{get, save, insert}
use brandy_manager_back.Devices.Models.{
  Device, DeviceStatus, ConnectivityStatus, DeviceState, PlaybackStatus, DeviceEvent, EventType,
  ContentManifest, AudioAsset, device_row, state_row, manifest_row, asset_row,
}
use brandy_manager_back.Devices.Store.{
  DeviceDb, DeviceEnv, D, ◌>>=◌, ◌>>◌, return, gets, inspect, modify,
}
use brandy_manager_back.Devices.Lifecycle.{load_device, new_state}

-- One event of the batch; a field that is missing or null is `none`.
pub record Report : Type 0 where
  pub event_id : ℕ
  pub sequence : ℕ
  pub event_type : EventType
  pub occurred_at : ℕ
  pub manifest_id : Option ℕ
  pub asset_id : Option ℕ
  pub position_ms : Option ℕ
  pub volume : Option ℕ
  pub playback_status : Option PlaybackStatus

-- The manifest, where it is of the device's company and zone.
abbrev of_device : Device → Option ContentManifest → Result (Option ContentManifest)
of_device device none = err (playback_command_invalid "manifest_id")
of_device device (some m) =
    if m.company == device.company && same_key device.zone (some m.zone)
    then ok (some m)
    else err (playback_command_invalid "manifest_id")

unfoldable pub referenced_manifest : DeviceDb → Device → Option ℕ → Result (Option ContentManifest)
referenced_manifest db device none = ok none
referenced_manifest db device (some k) = of_device device (get k db.manifests)

abbrev found_asset : Option AudioAsset → Result (Option AudioAsset)
found_asset none = err does_not_exist
found_asset (some a) = ok (some a)

unfoldable pub referenced_asset :
    DeviceDb → Option ContentManifest → Option ℕ → Result (Option AudioAsset)
referenced_asset db manifest none = ok none
referenced_asset db none (some k) = err (playback_command_invalid "asset_id")
referenced_asset db (some m) (some k) =
    if exists (λ i. i.manifest == m.id && i.audio_asset == k) db.manifest_items
    then found_asset (get k db.assets)
    else err (playback_command_invalid "asset_id")

-- What the loop changes: the table of events, the rows of the state and the device, and two counters.
pub record Tally : Type 0 where
  pub events : List DeviceEvent
  pub state : DeviceState
  pub device : Device
  pub accepted : ℕ
  pub duplicates : ℕ

-- the types of events that show the device to be online
abbrev pub shows_online : EventType → Bool
shows_online EventType.heartbeat = true
shows_online EventType.online = true
shows_online EventType.manifest_loaded = true
shows_online EventType.playback_started = true
shows_online EventType.playback_progress = true
shows_online EventType.playback_completed = true
shows_online _ = false

abbrev pub shows_offline : EventType → Bool
shows_offline EventType.offline = true
shows_offline _ = false

abbrev manifest_version_or : Option ContentManifest → Option ℕ → Option ℕ
manifest_version_or none old = old
manifest_version_or (some m) old = some m.version

abbrev schedule_version_or : Option ContentManifest → Option ℕ → Option ℕ
schedule_version_or none old = old
schedule_version_or (some m) old = m.schedule_version

abbrev content_or : Option AudioAsset → Option ℕ → Option ℕ
content_or none old = old
content_or (some a) old = some a.audio_content

-- The assignments to the state for an event that is new and in sequence.
unfoldable pub state_after :
    ℕ → Report → Option ContentManifest → Option AudioAsset → DeviceState → DeviceState
state_after now event manifest asset s = record s {
  last_sequence = event.sequence;
  position_ms = or_else event.position_ms s.position_ms;
  volume = or_else event.volume s.volume;
  playback_status = or_else event.playback_status s.playback_status;
  manifest_version = manifest_version_or manifest s.manifest_version;
  schedule_version = schedule_version_or manifest s.schedule_version;
  current_audio_content = content_or asset s.current_audio_content;
  is_online =
      (if shows_online event.event_type
        then true
        else if shows_offline event.event_type
        then false
        else s.is_online);
  last_heartbeat_at = (if shows_online event.event_type then some now else s.last_heartbeat_at);
}

unfoldable pub device_after : ℕ → EventType → Device → Device
device_after now type d =
    if shows_online type
    then record d {
      connectivity_status = ConnectivityStatus.online;
      status = DeviceStatus.online;
      last_seen_at = some now;
    }
    else if shows_offline type
    then record d {
      connectivity_status = ConnectivityStatus.offline;
      status = DeviceStatus.offline;
    }
    else d

-- the test of `get_or_create`
abbrev pub is_recorded : ℕ → ℕ → DeviceEvent → Bool
is_recorded device event_id e = e.device == device && e.external_event_id == event_id

abbrev asset_key : Option AudioAsset → Option ℕ
asset_key none = none
asset_key (some a) = some a.id

abbrev manifest_key : Option ContentManifest → Option ℕ
manifest_key none = none
manifest_key (some m) = some m.id

-- the `defaults` of `get_or_create`
abbrev pub event_row : Report → Option ContentManifest → Option AudioAsset → Device → DeviceEvent
event_row event manifest asset device = record {
  company = device.company;
  device = device.id;
  external_event_id = event.event_id;
  sequence = event.sequence;
  event_type = event.event_type;
  occurred_at = event.occurred_at;
  manifest = manifest_key manifest;
  audio_asset = asset_key asset;
}

-- The round of the loop after the references have been found.
unfoldable pub record_event :
    ℕ → Report → Option ContentManifest → Option AudioAsset → Tally → Tally
unfolding state_after device_after
record_event now event manifest asset t =
    if exists (is_recorded t.device.id event.event_id) t.events
    then record t { duplicates = t.duplicates + 1 }
    else let kept = record t {
      events = t.events ++ event_row event manifest asset t.device ∷ [];
      accepted = t.accepted + 1;
    } in
      if leb event.sequence t.state.last_sequence then kept else record kept {
        state = state_after now event manifest asset t.state;
        device = device_after now event.event_type t.device;
      }

-- `minimum_time <= occurred_at <= maximum_time`
abbrev pub in_time : DeviceEnv → ℕ → Report → Bool
in_time env now event =
    leb now (event.occurred_at + env.telemetry_max_age)
    && leb event.occurred_at (now + env.telemetry_future_skew)

unfoldable pub handle_event : DeviceEnv → DeviceDb → ℕ → Report → Tally → Result Tally
unfolding referenced_manifest referenced_asset record_event
handle_event env db now event t =
    if not (in_time env now event)
    then err (playback_command_invalid "occurred_at")
    else elim (referenced_manifest db t.device event.manifest_id) [
      | err e ↦ err e
      | ok manifest ↦ elim (referenced_asset db manifest event.asset_id) [
        | err e ↦ err e
        | ok asset ↦ ok (record_event now event manifest asset t)
      ]
    ]

unfoldable pub handle_events : DeviceEnv → DeviceDb → ℕ → List Report → Tally → Result Tally
unfolding handle_event
handle_events env db now [] t = ok t
handle_events env db now (event ∷ events) t = elim (handle_event env db now event t) [
  | err e ↦ err e
  | ok t' ↦ handle_events env db now events t'
]

-- `get_or_create(device=device, defaults={"zone": device.zone})`
unfoldable pub load_state : Device → D DeviceState
load_state device db = elim (get device.id db.states) [
  | some s ↦ ok (s, db)
  | none ↦
      let s = new_state device.id device.zone in ok (s, record db { states = insert s db.states })
]

unfoldable pub record_device_telemetry : DeviceEnv → ℕ → List Report → ℕ → D Tally
unfolding handle_events load_device load_state
record_device_telemetry env device_id events now = do
  device ← load_device device_id
  state ← load_state device
  rows ← gets (λ db. db.events)
  t ← inspect (λ db.
      handle_events env db now events
        (record { events = rows; state = state; device = device; accepted = 0; duplicates = 0 }))
  modify (λ db. record db {
    events = t.events;
    states = save t.state db.states;
    devices = save t.device db.devices;
  })
  return t
