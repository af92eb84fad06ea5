-- ===== src/Devices/Store.antt =====
-- The tables that the devices app (apps/devices) reads and writes, and what it takes from outside.
-- Scheduling writes none of them.
use brandy_manager_back.Prelude.{ℕ, List, Bool}
pub use brandy_manager_back.Transaction.{
  Transaction, ◌>>=◌, ◌>>◌, return, raise, gets, or_raise, inspect, modify, raise_if, full_clean,
  assert_new,
}
use brandy_manager_back.Billing.{Plan, Subscription}
use brandy_manager_back.Models.Organizations.{Site, Zone}
use brandy_manager_back.Text.{Text}
use brandy_manager_back.Devices.Models.{
  Device, DeviceZoneAssignment, DeviceActivation, DeviceCredential, DeviceCommand, DeviceState,
  DeviceEvent, ContentManifest, ContentManifestItem, AudioAsset,
}

pub record DeviceDb : Type 0 where
  pub sites : List Site
  pub zones : List Zone
  pub plans : List Plan
  pub subscriptions : List Subscription
  pub devices : List Device
  pub zone_assignments : List DeviceZoneAssignment
  pub activations : List DeviceActivation
  pub credentials : List DeviceCredential
  pub commands : List DeviceCommand
  pub states : List DeviceState
  pub events : List DeviceEvent
  pub manifests : List ContentManifest
  pub manifest_items : List ContentManifestItem
  pub assets : List AudioAsset

-- `settings`, the keyed hash of the standard library, and Django's column checks.
pub record DeviceEnv : Type 0 where
  pub hmac : Text → ℕ
  pub device_fields : Device → Bool
  pub activation_code_ttl : ℕ
  pub activation_max_attempts : ℕ
  pub refresh_token_lifetime : ℕ
  pub command_batch_size : ℕ
  pub telemetry_max_age : ℕ
  pub telemetry_future_skew : ℕ

abbrev pub D : Type 0 → Type 0
D A = Transaction DeviceDb A
