-- ===== src/Devices/Rotation.antt =====
-- `rotate_device_credential` (apps/devices/services.py): one secret gives way to the next.
use brandy_manager_back.Prelude.{
  ℕ, ◌+◌, ◌<◌, ◌≡◌, refl, some, List, [], ◌∷◌, Bool, true, false, ◌==◌, arith, first, select,
  exists, Option-cases, inl, inr,
}
use brandy_manager_back.Result.{ok, err, device_credential_revoked}
use brandy_manager_back.Table.{save, insert}
use brandy_manager_back.Text.{Text}
use brandy_manager_back.Devices.Models.{
  Device, DeviceCredential, CredentialStatus, credential_row, device_row,
}
use brandy_manager_back.Devices.Store.{DeviceDb, DeviceEnv}
use brandy_manager_back.Devices.Activation.{FreshCredential}
use brandy_manager_back.Devices.Credentials.{
  find_credential, check_credential, rotate_device_credential,
}
use brandy_manager_back.Devices.SingleUse.{first-save, first-select}

first-select-insert :
    (p : DeviceCredential → Bool) (x y : DeviceCredential) (xs : List DeviceCredential)
    → first (select p xs) ≡ some x
    → first (select p (insert y xs)) ≡ some x
first-select-insert p x y [] e = cc
first-select-insert p x y (z ∷ zs) e = ground (arith, first-select-insert p x y zs)

first-select-new :
    (p : DeviceCredential → Bool) (x : DeviceCredential) (xs : List DeviceCredential)
    → exists p xs ≡ false
    → p x ≡ true
    → first (select p (insert x xs)) ≡ some x
first-select-new p x [] e h = ground arith
first-select-new p x (y ∷ ys) e h = ground (arith, first-select-new p x ys)

-- After a rotation the old credential is found revoked, and the new one is found as it was made.
rotated_found :
    (env : DeviceEnv) (name : ℕ) (secret : Text) (fresh : FreshCredential) (now : ℕ) (db : DeviceDb)
    {d : Device} {c : DeviceCredential} {db' : DeviceDb}
    → rotate_device_credential env name secret fresh now db ≡ ok ((d, c), db')
    → ((old : DeviceCredential) × (find_credential name db'.credentials ≡ some old)
        × (old.secret_hash ≡ env.hmac secret)
        × (old.status ≡ CredentialStatus.revoked))
      × (find_credential fresh.credential_id db'.credentials ≡ some c)
      × (c.secret_hash ≡ env.hmac fresh.raw_secret)
      × (c.status ≡ CredentialStatus.active)
      × (c.expires_at ≡ some (now + env.refresh_token_lifetime))
unfolding rotate_device_credential find_credential
rotated_found env name secret fresh now db {d} {c} {db'} h =
    elim (Option-cases (find_credential name db.credentials)) [
      | inl n ↦ absurd (ground arith)
      | inr (f, e) ↦
          let p : DeviceCredential → Bool = λ x. x.credential_id == name in
          let old = record f {
            status = CredentialStatus.revoked;
            revoked_at = some now;
            last_used_at = some now;
          } in
          let kept = first-save p f old db.credentials e refl (first-select p f db.credentials e) in
          let rows = save old db.credentials in
          let stays = first-select-insert p old c rows kept in
          let comes = first-select-new (λ x. x.credential_id == fresh.credential_id) c rows in
          (
            (old, ground (arith, e, stays), ground (arith, e), refl),
            ground (arith, e, comes),
            ground (arith, e),
            ground (arith, e),
            ground (arith, e),
          )
    ]

-- A rotation makes the secret that was presented useless: presented again, at any later time, it is
-- refused as revoked. The new secret is accepted until its lifetime is over.
pub rotate-renews :
    (env : DeviceEnv) (name : ℕ) (secret : Text) (fresh : FreshCredential) (now : ℕ) (db : DeviceDb)
    {d : Device} {c : DeviceCredential} {db' : DeviceDb}
    → rotate_device_credential env name secret fresh now db ≡ ok ((d, c), db')
    → ((fresh' : FreshCredential) (now' : ℕ)
        → rotate_device_credential env name secret fresh' now' db' ≡ err device_credential_revoked)
      × ((now' : ℕ)
          → now' < now + env.refresh_token_lifetime
          → check_credential env fresh.credential_id fresh.raw_secret now' db' ≡ ok c)
unfolding rotate_device_credential check_credential
rotate-renews env name secret fresh now db h =
    let ((old, found, hash, revoked), new_found, new_hash, new_status, new_end) =
      rotated_found env name secret fresh now db h in
    (
      λ fresh' now'. ground (arith, found, hash, revoked),
      λ now' soon. ground (arith, new_found, new_hash, new_status, new_end),
    )
