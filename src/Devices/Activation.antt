-- ===== src/Devices/Activation.antt =====
-- apps/devices/services.py: activation codes, and the activation of a device with one.
use brandy_manager_back.Prelude.{
  ℕ, ◌+◌, Option, none, some, [], ◌∷◌, Bool, true, false, not, ◌&&◌, ◌||◌, ◌==◌, exists, first,
  select, length, take, if◌then◌else◌, or_else,
}
use brandy_manager_back.Result.{
  Result, ok, err, integrity_error, device_zone_invalid, device_activation_invalid,
}
use brandy_manager_back.Table.{get, save, insert}
use brandy_manager_back.Models.Organizations.{
  Site, Zone, site_is_archived, zone_is_archived, site_row, zone_row,
}
use brandy_manager_back.Text.{Text, upper, without_spaces, without_dashes, strip}
use brandy_manager_back.Devices.Models.{
  Device, DeviceStatus, ActivationStatus, ConnectivityStatus, DeviceActivation, DeviceCredential,
  CredentialStatus, device_row, activation_row, credential_row, is_administratively_active,
  activation_is_revoked, activation_is_active,
}
use brandy_manager_back.Devices.Store.{
  DeviceDb, DeviceEnv, D, ◌>>=◌, ◌>>◌, return, gets, inspect, modify, raise_if, assert_new,
}
use brandy_manager_back.Devices.Lifecycle.{
  load_device, invalidate_device_credentials, invalidate_activation_codes,
}

-- `_normalize_activation_code`
unfoldable pub normalize_activation_code : Text → Text
unfolding upper without_spaces without_dashes
normalize_activation_code value = without_dashes (without_spaces (upper value))

-- `_format_activation_code`: groups of four with a dash between them
unfoldable pub format_activation_code : Text → Text
format_activation_code (a ∷ b ∷ c ∷ d ∷ e ∷ rest) =
    a ∷ b ∷ c ∷ d ∷ 45 ∷ format_activation_code (e ∷ rest)
format_activation_code value = value

unfoldable pub may_activate : Device → Bool
may_activate d =
    is_administratively_active d.administrative_status
    && not (activation_is_revoked d.activation_status)

-- `raw_code` are the twelve letters that `secrets.choice` draws.
unfoldable pub generate_device_activation_code :
    DeviceEnv → ℕ → Text → ℕ → ℕ → D (DeviceActivation × Text)
unfolding load_device
generate_device_activation_code env device_id raw_code new_id now = do
  device ← load_device device_id
  raise_if (not (may_activate device)) device_zone_invalid
  modify
      (λ db. record db { activations = invalidate_activation_codes device.id now db.activations })
  rows ← gets (λ db. db.activations)
  assert_new new_id rows
  raise_if (exists (λ a. a.code_hash == env.hmac raw_code) rows) integrity_error
  let a : DeviceActivation = record {
    id = new_id;
    device = device.id;
    code_hash = env.hmac raw_code;
    expires_at = now + env.activation_code_ttl;
    attempts = 0;
    max_attempts = env.activation_max_attempts;
    consumed_at = none;
    revoked_at = none;
    last_attempt_at = none;
  }
  modify (λ db. record db { activations = insert a db.activations })
  return (a, format_activation_code raw_code)

-- `device.zone.status` and `device.zone.site.status`
abbrev usable_site : Option Site → Bool
usable_site none = false
usable_site (some s) = not (site_is_archived s.status)

abbrev usable_zone : DeviceDb → Option Zone → Bool
usable_zone db none = false
usable_zone db (some z) = not (zone_is_archived z.status) && usable_site (get z.site db.sites)

unfoldable pub zone_is_usable : DeviceDb → Option ℕ → Bool
zone_is_usable db none = false
zone_is_usable db (some k) = usable_zone db (get k db.zones)

-- The activation with the code's hash, if it may be used now.
abbrev usable_activation : DeviceDb → ℕ → Option DeviceActivation → Result DeviceActivation
usable_activation db now none = err device_activation_invalid
usable_activation db now (some a) =
    if not (activation_is_active now a)
    then err device_activation_invalid
    else elim (get a.device db.devices) [
      | none ↦ err device_activation_invalid
      | some d ↦
          if not (may_activate d) || not (zone_is_usable db d.zone)
          then err device_activation_invalid
          else ok a
    ]

unfoldable pub find_activation : DeviceEnv → Text → ℕ → DeviceDb → Result DeviceActivation
find_activation env raw_code now db =
    let normalized = normalize_activation_code raw_code in
    if not (length normalized == 12)
    then err device_activation_invalid
    else usable_activation db now
        (first (select (λ a. a.code_hash == env.hmac normalized) db.activations))

-- `consumed_at` is set where the code is consumed
abbrev consumed : Bool → ℕ → Option ℕ → Option ℕ
consumed true now old = some now
consumed false now old = old

-- The address of the client (`ip_address`), which is only stored, is left out, and so is the check of its
-- column: the program also refuses a request with an address that is none.
unfoldable pub get_active_activation_or_raise : DeviceEnv → Text → Bool → ℕ → D DeviceActivation
unfolding find_activation
get_active_activation_or_raise env raw_code consume now = do
  found ← inspect (find_activation env raw_code now)
  let a = record found {
    last_attempt_at = some now;
    consumed_at = consumed consume now found.consumed_at;
  }
  modify (λ db. record db { activations = save a db.activations })
  return a

unfoldable pub validate_device_activation_code : DeviceEnv → Text → ℕ → D Device
unfolding get_active_activation_or_raise
validate_device_activation_code env raw_code now = do
  a ← get_active_activation_or_raise env raw_code false now
  load_device a.device

-- What a new credential is made of: `uuid4` and `token_urlsafe` draw the key, the name and the secret.
pub record FreshCredential : Type 0 where
  pub id : ℕ
  pub credential_id : ℕ
  pub raw_secret : Text

-- `_new_device_credential`
unfoldable pub new_device_credential :
    DeviceEnv → ℕ → Option ℕ → FreshCredential → ℕ → D DeviceCredential
new_device_credential env device rotated_from fresh now = do
  rows ← gets (λ db. db.credentials)
  assert_new fresh.id rows
  raise_if (exists (λ c. c.credential_id == fresh.credential_id) rows) integrity_error
  let c : DeviceCredential = record {
    id = fresh.id;
    device = device;
    credential_id = fresh.credential_id;
    secret_hash = env.hmac fresh.raw_secret;
    status = CredentialStatus.active;
    expires_at = some (now + env.refresh_token_lifetime);
    last_used_at = none;
    revoked_at = none;
    rotated_from = rotated_from;
  }
  modify (λ db. record db { credentials = insert c db.credentials })
  return c

abbrev unless_empty : Text → Text → Text
unless_empty [] old = old
unless_empty (c ∷ cs) old = strip (c ∷ cs)

abbrev user_agent_or : Text → Option Text → Option Text
user_agent_or [] old = old
user_agent_or (c ∷ cs) old = some (take 512 (c ∷ cs))

-- The assignments to the row in `complete_device_activation`.
unfoldable pub activated_device : Text → Text → Text → ℕ → Device → Device
activated_device device_name user_agent app_version now d = record d {
  activation_status = ActivationStatus.activated;
  connectivity_status = ConnectivityStatus.offline;
  status = DeviceStatus.offline;
  activated_at = some (or_else d.activated_at now);
  name = unless_empty device_name d.name;
  app_version = unless_empty app_version d.app_version;
  activation_user_agent = user_agent_or user_agent d.activation_user_agent;
  configuration_version = d.configuration_version + 1;
}

unfoldable pub complete_device_activation :
    DeviceEnv → Text → Text → Text → Text → FreshCredential → ℕ → D (Device × DeviceCredential)
unfolding get_active_activation_or_raise load_device new_device_credential
complete_device_activation env raw_code device_name user_agent app_version fresh now = do
  a ← get_active_activation_or_raise env raw_code true now
  device ← load_device a.device
  modify
      (λ db. record db { credentials = invalidate_device_credentials device.id now db.credentials })
  c ← new_device_credential env device.id none fresh now
  let d = activated_device device_name user_agent app_version now device
  modify (λ db. record db { devices = save d db.devices })
  return (d, c)
