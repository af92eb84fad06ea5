-- ===== src/Devices/Models.antt =====
-- apps/devices/models.py: the rows of the devices app, with the columns that its services use.
-- Instants and durations are microseconds. A JSON column of which no key is read is its text.
use brandy_manager_back.Prelude.{ℕ, String, Option, Bool, true, false, ◌&&◌, ltb, is_none}
use brandy_manager_back.Table.{Row}
use brandy_manager_back.Text.{Text}

pub data DeviceType : Type 0 where
  dedicated_player desktop_app mobile_app other : DeviceType

pub data DeviceStatus : Type 0 where
  provisioning online offline maintenance disabled revoked : DeviceStatus

pub data AdministrativeStatus : Type 0 where
  active suspended archived : AdministrativeStatus

pub data ActivationStatus : Type 0 where
  pending activated revoked : ActivationStatus

pub data ConnectivityStatus : Type 0 where
  unknown online offline : ConnectivityStatus

pub record Device : Type 0 where
  pub id : ℕ
  pub company : ℕ
  pub zone : Option ℕ
  pub code : Text
  pub name : Text
  pub device_type : DeviceType
  pub status : DeviceStatus
  pub administrative_status : AdministrativeStatus
  pub activation_status : ActivationStatus
  pub connectivity_status : ConnectivityStatus
  pub configuration : String
  pub configuration_version : ℕ
  pub app_version : Text
  pub last_seen_at : Option ℕ
  pub activated_at : Option ℕ
  pub deactivated_at : Option ℕ
  pub revoked_at : Option ℕ
  pub archived_at : Option ℕ
  -- `metadata["activation_user_agent"]`
  pub activation_user_agent : Option Text

pub data AssignmentRole : Type 0 where
  primary standby : AssignmentRole

pub record DeviceZoneAssignment : Type 0 where
  pub id : ℕ
  pub company : ℕ
  pub device : ℕ
  pub zone : ℕ
  pub assignment_role : AssignmentRole
  pub assigned_at : ℕ
  pub unassigned_at : Option ℕ
  pub reason : Text

pub record DeviceActivation : Type 0 where
  pub id : ℕ
  pub device : ℕ
  pub code_hash : ℕ
  pub expires_at : ℕ
  pub attempts : ℕ
  pub max_attempts : ℕ
  pub consumed_at : Option ℕ
  pub revoked_at : Option ℕ
  pub last_attempt_at : Option ℕ

pub data CredentialStatus : Type 0 where
  active expired revoked : CredentialStatus

pub record DeviceCredential : Type 0 where
  pub id : ℕ
  pub device : ℕ
  pub credential_id : ℕ
  pub secret_hash : ℕ
  pub status : CredentialStatus
  pub expires_at : Option ℕ
  pub last_used_at : Option ℕ
  pub revoked_at : Option ℕ
  pub rotated_from : Option ℕ

pub data CommandType : Type 0 where
  set_volume mute unmute restart_playback force_sync enable disable change_channel pause resume skip
        sync restart update_app refresh_configuration :
      CommandType

pub data CommandStatus : Type 0 where
  pending delivered acknowledged executed failed expired cancelled : CommandStatus

-- The two payloads that pass validation: `{"volume": n}` and `{}`.
pub record DeviceCommand : Type 0 where
  pub id : ℕ
  pub company : ℕ
  pub device : ℕ
  pub command_type : CommandType
  pub volume : Option ℕ
  pub status : CommandStatus
  pub created_at : ℕ
  pub expires_at : Option ℕ
  pub delivered_at : Option ℕ
  pub acknowledged_at : Option ℕ
  pub executed_at : Option ℕ
  pub result : String
  pub error_message : String
  pub idempotency_key : Option ℕ

pub data PlaybackStatus : Type 0 where
  stopped playing paused buffering error : PlaybackStatus

pub record DeviceState : Type 0 where
  -- the device: the relation is one to one
  pub device : ℕ
  pub zone : Option ℕ
  pub current_audio_content : Option ℕ
  pub playback_status : PlaybackStatus
  pub position_ms : ℕ
  pub volume : ℕ
  pub is_online : Bool
  pub last_heartbeat_at : Option ℕ
  pub manifest_version : Option ℕ
  pub schedule_version : Option ℕ
  pub last_sequence : ℕ

-- what a player reports (devices/internal_serializers.py)
pub data EventType : Type 0 where
  heartbeat manifest_loaded playback_started playback_progress playback_completed playback_error
        offline online command_acknowledged :
      EventType

pub record DeviceEvent : Type 0 where
  pub company : ℕ
  pub device : ℕ
  pub external_event_id : ℕ
  pub sequence : ℕ
  pub event_type : EventType
  pub occurred_at : ℕ
  pub manifest : Option ℕ
  pub audio_asset : Option ℕ

-- apps/playback/models.py and apps/catalog/models.py, as far as telemetry reads them
pub record ContentManifest : Type 0 where
  pub id : ℕ
  pub company : ℕ
  pub zone : ℕ
  pub version : ℕ
  pub schedule_version : Option ℕ

pub record ContentManifestItem : Type 0 where
  pub manifest : ℕ
  pub audio_asset : ℕ

pub record AudioAsset : Type 0 where
  pub id : ℕ
  pub audio_content : ℕ

instance abbrev pub manifest_row : Row ContentManifest
manifest_row = record { pk = λ m. m.id }

instance abbrev pub asset_row : Row AudioAsset
asset_row = record { pk = λ a. a.id }

instance abbrev pub device_row : Row Device
device_row = record { pk = λ d. d.id }

instance abbrev pub zone_assignment_row : Row DeviceZoneAssignment
zone_assignment_row = record { pk = λ a. a.id }

instance abbrev pub activation_row : Row DeviceActivation
activation_row = record { pk = λ a. a.id }

instance abbrev pub credential_row : Row DeviceCredential
credential_row = record { pk = λ c. c.id }

instance abbrev pub command_row : Row DeviceCommand
command_row = record { pk = λ c. c.id }

instance abbrev pub state_row : Row DeviceState
state_row = record { pk = λ s. s.device }

abbrev pub is_archived : AdministrativeStatus → Bool
is_archived AdministrativeStatus.archived = true
is_archived _ = false

abbrev pub is_administratively_active : AdministrativeStatus → Bool
is_administratively_active AdministrativeStatus.active = true
is_administratively_active _ = false

abbrev pub activation_is_revoked : ActivationStatus → Bool
activation_is_revoked ActivationStatus.revoked = true
activation_is_revoked _ = false

abbrev pub is_activated : ActivationStatus → Bool
is_activated ActivationStatus.activated = true
is_activated _ = false

abbrev pub credential_is_active : CredentialStatus → Bool
credential_is_active CredentialStatus.active = true
credential_is_active _ = false

abbrev pub credential_is_revoked : CredentialStatus → Bool
credential_is_revoked CredentialStatus.revoked = true
credential_is_revoked _ = false

-- `DeviceActivation.is_active`
unfoldable pub activation_is_active : ℕ → DeviceActivation → Bool
activation_is_active at a =
    is_none a.consumed_at
    && (is_none a.revoked_at && (ltb at a.expires_at && ltb a.attempts a.max_attempts))
