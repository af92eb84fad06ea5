-- ===== src/Devices/Credentials.antt =====
-- apps/devices/services.py: rotation and revocation of the secret that a player keeps in a cookie.
use brandy_manager_back.Prelude.{
  ℕ, Option, none, some, List, Bool, true, false, not, ◌&&◌, ◌||◌, leb, ◌==◌, select, first,
  if◌then◌else◌,
}
use brandy_manager_back.Result.{Result, ok, err, device_session_expired, device_credential_revoked}
use brandy_manager_back.Table.{save}
use brandy_manager_back.Text.{Text}
use brandy_manager_back.Devices.Models.{
  Device, DeviceCredential, CredentialStatus, device_row, credential_row, credential_is_active,
  credential_is_revoked,
}
use brandy_manager_back.Devices.Store.{DeviceDb, DeviceEnv, D, ◌>>=◌, ◌>>◌, return, inspect, modify}
use brandy_manager_back.Devices.Lifecycle.{load_device}
use brandy_manager_back.Devices.Activation.{FreshCredential, new_device_credential, may_activate}

-- `DeviceCredential.objects.filter(credential_id=...).first()`; the column is unique
unfoldable pub find_credential : ℕ → List DeviceCredential → Option DeviceCredential
find_credential name rows = first (select (λ c. c.credential_id == name) rows)

-- `expires_at and expires_at <= now`
abbrev pub has_expired : Option ℕ → ℕ → Bool
has_expired none now = false
has_expired (some t) now = leb t now

-- The checks of `rotate_device_credential` in their order. Where the source sets a status before it
-- raises, the transaction takes that back.
abbrev presented : DeviceEnv → Text → ℕ → Option DeviceCredential → Result DeviceCredential
presented env raw_secret now none = err device_session_expired
presented env raw_secret now (some c) =
    if not (c.secret_hash == env.hmac raw_secret)
    then err device_session_expired
    else if credential_is_revoked c.status
    then err device_credential_revoked
    else if not (credential_is_active c.status) || has_expired c.expires_at now
    then err device_session_expired
    else ok c

unfoldable pub check_credential : DeviceEnv → ℕ → Text → ℕ → DeviceDb → Result DeviceCredential
unfolding find_credential
check_credential env name raw_secret now db =
    presented env raw_secret now (find_credential name db.credentials)

abbrev device_usable : Device → Result (Unit {0})
device_usable d = if not (may_activate d) then err device_credential_revoked else ok tt

unfoldable pub rotate_device_credential :
    DeviceEnv → ℕ → Text → FreshCredential → ℕ → D (Device × DeviceCredential)
unfolding check_credential load_device new_device_credential may_activate
rotate_device_credential env name raw_secret fresh now = do
  c ← inspect (check_credential env name raw_secret now)
  device ← load_device c.device
  inspect (λ db. device_usable device)
  let old = record c {
    status = CredentialStatus.revoked;
    revoked_at = some now;
    last_used_at = some now;
  }
  modify (λ db. record db { credentials = save old db.credentials })
  new ← new_device_credential env device.id (some old.id) fresh now
  return (device, new)

abbrev revoked_if : Bool → ℕ → DeviceCredential → List DeviceCredential → List DeviceCredential
revoked_if true now c rows =
    save (record c { status = CredentialStatus.revoked; revoked_at = some now }) rows
revoked_if false now c rows = rows

abbrev revoke_found :
    DeviceEnv → Text → ℕ → Option DeviceCredential → List DeviceCredential → List DeviceCredential
revoke_found env raw_secret now none rows = rows
revoke_found env raw_secret now (some c) rows =
    revoked_if (c.secret_hash == env.hmac raw_secret && credential_is_active c.status) now c rows

-- It never raises: an unknown or wrong credential is left alone.
unfoldable pub revoke_device_credential_from_cookie : DeviceEnv → ℕ → Text → ℕ → DeviceDb → DeviceDb
unfolding find_credential
revoke_device_credential_from_cookie env name raw_secret now db = record db {
  credentials =
      revoke_found env raw_secret now (find_credential name db.credentials) db.credentials;
}
