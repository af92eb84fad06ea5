-- ===== src/Devices/SingleUse.antt =====
-- An activation code of apps/devices/services.py works while it may, and once.
use brandy_manager_back.Prelude.{
  ℕ, ◌≡◌, refl, ap, Option, some, List, [], ◌∷◌, Bool, true, false, ◌==◌, arith, first, select,
  exists, Option-cases, inl, inr,
}
use brandy_manager_back.Result.{ok, err, Result-cases, device_activation_invalid}
use brandy_manager_back.Table.{Row, get, save, insert}
use brandy_manager_back.Text.{Text}
use brandy_manager_back.Devices.Models.{
  Device, DeviceActivation, DeviceCredential, activation_row, activation_is_active, device_row,
}
use brandy_manager_back.Devices.Store.{DeviceDb, DeviceEnv}
use brandy_manager_back.Devices.Lifecycle.{invalidate_activation_codes}
use brandy_manager_back.Devices.Activation.{
  FreshCredential, normalize_activation_code, format_activation_code, find_activation,
  generate_device_activation_code, get_active_activation_or_raise, validate_device_activation_code,
  complete_device_activation,
}

-- The first row that passes a test stays the first when it is saved with values that pass it.
module _ {A : Type 0} ⦃r : Row A⦄ where
  pub first-save :
      (p : A → Bool) (x y : A) (xs : List A)
      → first (select p xs) ≡ some x
      → r.pk y ≡ r.pk x
      → p y ≡ true
      → first (select p (save y xs)) ≡ some y
  first-save p x y [] e k h = cc
  first-save p x y (z ∷ zs) e k h = ground (arith, first-save p x y zs)

  pub first-select :
      (p : A → Bool) (x : A) (xs : List A) → first (select p xs) ≡ some x → p x ≡ true
  first-select p x [] e = cc
  first-select p x (z ∷ zs) e = ground (arith, first-select p x zs)

-- The row with a code's hash.
abbrev with_hash : DeviceEnv → Text → DeviceDb → Option DeviceActivation
with_hash env raw db =
    first (select (λ a. a.code_hash == env.hmac (normalize_activation_code raw)) db.activations)

-- Consuming a code leaves its row consumed, in front.
consumed_stored :
    (env : DeviceEnv) (raw : Text) (now : ℕ) (db : DeviceDb) {a : DeviceActivation} {db' : DeviceDb}
    → get_active_activation_or_raise env raw true now db ≡ ok (a, db')
    → (with_hash env raw db' ≡ some a) × (a.consumed_at ≡ some now)
unfolding get_active_activation_or_raise find_activation
consumed_stored env raw now db {a} {db'} h = elim (Option-cases (with_hash env raw db)) [
  | inl n ↦ absurd (ground arith)
  | inr (f, e) ↦
      let p : DeviceActivation → Bool =
        λ x. x.code_hash == env.hmac (normalize_activation_code raw) in
      let g = record f { last_attempt_at = some now; consumed_at = some now } in
      let stays = first-save p f g db.activations e refl (first-select p f db.activations e) in
      ground (arith, stays)
]

consumed_not_found :
    (env : DeviceEnv) (raw raw' : Text) (now' : ℕ) (db : DeviceDb) {a : DeviceActivation} {at : ℕ}
    → normalize_activation_code raw' ≡ normalize_activation_code raw
    → with_hash env raw db ≡ some a
    → a.consumed_at ≡ some at
    → find_activation env raw' now' db ≡ err device_activation_invalid
unfolding find_activation activation_is_active
consumed_not_found env raw raw' now' db q w c = ground (arith, ap env.hmac q)

completed_found :
    (env : DeviceEnv) (raw name agent version : Text) (fresh : FreshCredential) (now : ℕ)
    (db : DeviceDb) {r : Device × DeviceCredential} {db' : DeviceDb}
    → complete_device_activation env raw name agent version fresh now db ≡ ok (r, db')
    → (a : DeviceActivation) × (with_hash env raw db' ≡ some a) × (a.consumed_at ≡ some now)
unfolding complete_device_activation
completed_found env raw name agent version fresh now db {r} {db'} h =
    elim (Result-cases (get_active_activation_or_raise env raw true now db)) [
      | inl (x, q) ↦ absurd (ground arith)
      | inr ((a, db1), q) ↦
          let (w, c) = consumed_stored env raw now db q in (a, ground (arith, w), c)
    ]

-- A code activates a device at most once: after it has, every later use of the code, typed in with any
-- case, spaces and dashes, is refused, both to look at the device and to activate it.
pub complete-single_use :
    (env : DeviceEnv) (raw name agent version : Text) (fresh : FreshCredential) (now : ℕ)
    (db : DeviceDb) {r : Device × DeviceCredential} {db' : DeviceDb}
    → complete_device_activation env raw name agent version fresh now db ≡ ok (r, db')
    → (raw' name' agent' version' : Text) (fresh' : FreshCredential) (now' : ℕ)
    → normalize_activation_code raw' ≡ normalize_activation_code raw
    → (complete_device_activation env raw' name' agent' version' fresh' now' db'
        ≡ err device_activation_invalid)
      × (validate_device_activation_code env raw' now' db' ≡ err device_activation_invalid)
unfolding complete_device_activation validate_device_activation_code get_active_activation_or_raise
complete-single_use env raw name agent version fresh now db {r} {db'} h raw' name' agent' version'
      fresh' now' q =
    let (a, w, c) = completed_found env raw name agent version fresh now db h in
    let refused = consumed_not_found env raw raw' now' db' q w c in
    (ground (arith, refused), ground (arith, refused))

first-select-insert :
    (p : DeviceActivation → Bool) (x : DeviceActivation) (xs : List DeviceActivation)
    → exists p xs ≡ false
    → p x ≡ true
    → first (select p (insert x xs)) ≡ some x
first-select-insert p x [] e h = ground arith
first-select-insert p x (y ∷ ys) e h = ground (arith, first-select-insert p x ys)

-- A new code is found by its hash, the codes that it replaces are not.
generated_stored :
    (env : DeviceEnv) (k : ℕ) (raw : Text) (new_id now : ℕ) (db : DeviceDb) {a : DeviceActivation}
    {text : Text} {db' : DeviceDb}
    → generate_device_activation_code env k raw new_id now db ≡ ok ((a, text), db')
    → (first (select (λ x. x.code_hash == env.hmac raw) db'.activations) ≡ some a)
      × (text ≡ format_activation_code raw)
unfolding generate_device_activation_code
generated_stored env k raw new_id now db {a} {text} {db'} h =
    elim (Option-cases (get k db.devices)) [
      | inl n ↦ absurd (ground arith)
      | inr (d, l) ↦
          let rows = invalidate_activation_codes d.id now db.activations in
          ground (arith, first-select-insert (λ x. x.code_hash == env.hmac raw) a rows)
    ]
