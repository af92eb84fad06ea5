-- ===== src/Result.antt =====
-- What a request may raise, and the outcome of a step (apps/*/exceptions.py, django.core.exceptions).
-- An error that the source raises with different field names carries the name.
use brandy_manager_back.Prelude.{ℕ, String, List, ◌≡◌, refl, ◌⊎◌, inl, inr}

pub data Error : Type 0 where
  -- django: `Model.DoesNotExist` of a `.get(...)`, and a `ValidationError` at a field
  does_not_exist : Error
  validation_error : String → Error
  -- a loop of the model that ran out of fuel
  diverged : Error
  -- a unique constraint of the database
  integrity_error : Error
  -- Python: a call with a keyword that the callee does not take
  type_error : String → Error
  -- scheduling/exceptions.py
  schedule_revision_conflict : Error
  schedule_conflict : List ℕ → Error
  schedule_content_unavailable : Error
  schedule_assignment_invalid : String → Error
  schedule_not_publishable : Error
  -- playlists/exceptions.py
  playlist_revision_conflict playlist_content_unavailable playlist_not_publishable : Error
  playlist_limit_reached playlist_order_conflict playlist_in_use playlist_code_conflict : Error
  playlist_item_not_found : Error
  channel_code_conflict channel_in_use channel_limit_reached channel_not_publishable : Error
  channel_playlist_invalid channel_revision_conflict zone_channel_assignment_invalid : Error
  -- organizations/exceptions.py
  plan_limit_reached site_code_conflict zone_code_conflict site_not_found site_archived : Error
  invitation_conflict invitation_token_invalid invalid_role_assignment protected_owner : Error
  -- authorization/services.py
  company_access_denied permission_denied functional_access_blocked : Error
  -- devices/exceptions.py
  device_activation_invalid device_credential_revoked device_limit_reached : Error
  device_revision_conflict device_session_expired device_zone_invalid device_code_conflict : Error
  playback_command_invalid : String → Error

pub data Result {ℓ} (A : Type ℓ) : Type ℓ where
  ok : A → Result A
  err : Error → Result A

abbrev pub result_map {ℓ κ} : {A : Type ℓ} {B : Type κ} → (A → B) → Result A → Result B
result_map f (ok a) = ok (f a)
result_map f (err e) = err e

pub Result-cases {ℓ} :
    {A : Type ℓ} (r : Result A) → ((e : Error) × (r ≡ err e)) ⊎ ((a : A) × (r ≡ ok a))
Result-cases (ok a) = inr (a, refl)
Result-cases (err e) = inl (e, refl)
