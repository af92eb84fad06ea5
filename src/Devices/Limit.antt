-- ===== src/Devices/Limit.antt =====
-- The plan's limit on devices (apps/devices/services.py, `_enforce_device_limit`).
use brandy_manager_back.Prelude.{ℕ, suc, ◌≤◌, ◌≡◌, some, List, [], ◌∷◌, arith}
use brandy_manager_back.Result.{ok}
use brandy_manager_back.Table.{insert}
use brandy_manager_back.Billing.{LimitKey, company_limit}
use brandy_manager_back.Devices.Models.{Device, device_row}
use brandy_manager_back.Devices.Store.{DeviceDb, DeviceEnv}
use brandy_manager_back.Devices.Lifecycle.{
  DeviceData, active_device_count, enforce_device_limit, create_device,
}

count-insert :
    (company : ℕ) (d : Device) (xs : List Device)
    → active_device_count company (insert d xs) ≤ suc (active_device_count company xs)
unfolding active_device_count
count-insert company d [] = ground arith
count-insert company d (x ∷ xs) = ground (arith, count-insert company d xs)

-- A device is created only below the limit of the company's plan: after it, the devices of the
-- company that are not archived are at most as many as the limit allows, if there is one.
pub create_device-limit :
    (env : DeviceEnv) (company : ℕ) (p : DeviceData) (now : ℕ) (db : DeviceDb) {d : Device}
    {db' : DeviceDb} (limit : ℕ)
    → create_device env company p now db ≡ ok (d, db')
    → company_limit LimitKey.devices db.plans db.subscriptions company ≡ some limit
    → active_device_count company db'.devices ≤ limit
unfolding create_device enforce_device_limit
create_device-limit env company p now db {d} limit h l =
    ground (arith, count-insert company d db.devices)
