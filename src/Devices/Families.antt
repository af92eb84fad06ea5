-- ===== src/Devices/Families.antt =====
-- `create_device_command` (apps/devices/services.py): repeated and competing commands.
use brandy_manager_back.Prelude.{
  ℕ, ◌≡◌, refl, subst, none, some, List, [], ◌∷◌, Bool, true, ◌&&◌, ◌==◌, same_key, arith, first,
  select, Option-cases, Bool-cases, inl, inr, Memᴰ, mem-append, mem-singleton,
}
use brandy_manager_back.Result.{ok}
use brandy_manager_back.Table.{insert, mem-update}
use brandy_manager_back.Devices.Models.{
  Device, DeviceCommand, CommandType, CommandStatus, command_row, device_row,
}
use brandy_manager_back.Devices.Store.{DeviceDb}
use brandy_manager_back.Devices.Commands.{
  CommandData, gives_way, cancel_family, new_command, create_device_command,
}

-- A row with a company's idempotency key.
abbrev has_key : ℕ → ℕ → DeviceCommand → Bool
has_key company key c = c.company == company && same_key c.idempotency_key (some key)

first-insert :
    (p : DeviceCommand → Bool) (x : DeviceCommand) (xs : List DeviceCommand)
    → first (select p xs) ≡ none
    → p x ≡ true
    → first (select p (insert x xs)) ≡ some x
first-insert p x [] e h = ground arith
first-insert p x (y ∷ ys) e h = ground (arith, first-insert p x ys)

-- Cancelling changes no key.
first-cancel :
    (company key device : ℕ) (t : CommandType) (xs : List DeviceCommand)
    → first (select (has_key company key) xs) ≡ none
    → first (select (has_key company key) (cancel_family device t xs)) ≡ none
unfolding cancel_family
first-cancel company key device t [] e = refl
first-cancel company key device t (x ∷ xs) e = ground (arith, first-cancel company key device t xs)

created_found :
    (device : Device) (p : CommandData) (now key : ℕ) (db : DeviceDb) {c : DeviceCommand}
    {db' : DeviceDb}
    → create_device_command device p now db ≡ ok (c, db')
    → p.idempotency_key ≡ some key
    → first (select (has_key device.company key) db'.commands) ≡ some c
unfolding create_device_command new_command
created_found device p now key db {c} {db'} h k =
    elim (Option-cases (first (select (has_key device.company key) db.commands))) [
      | inl n ↦
          let rows = cancel_family device.id p.command_type db.commands in
          let missing = first-cancel device.company key device.id p.command_type db.commands n in
          ground (arith, k, n, missing, first-insert (has_key device.company key) c rows missing)
      | inr (x, q) ↦ ground (arith, k, q)
    ]

-- A command that is sent again with its idempotency key, while nothing else happened, is not created
-- a second time: the answer is the command of the first request, and the database stays as it is.
pub create_command-idempotent :
    (device : Device) (p : CommandData) (now now' key : ℕ) (db : DeviceDb) {c : DeviceCommand}
    {db' : DeviceDb}
    → create_device_command device p now db ≡ ok (c, db')
    → p.idempotency_key ≡ some key
    → create_device_command device p now' db' ≡ ok (c, db')
unfolding create_device_command
create_command-idempotent device p now now' key db h k =
    let found = created_found device p now key db h k in ground (arith, k, found)

-- A new command without an idempotency key is the only one of its family that is pending for the
-- device: every other pending volume command gives way to a volume command, and every other pending
-- ENABLE or DISABLE to one of these.
pub create_command-exclusive :
    (device : Device) (p : CommandData) (now : ℕ) (db : DeviceDb) {c : DeviceCommand}
    {db' : DeviceDb}
    → create_device_command device p now db ≡ ok (c, db')
    → p.idempotency_key ≡ none
    → (x : DeviceCommand) → Memᴰ x db'.commands
    → gives_way device.id p.command_type x ≡ true
    → x ≡ c
unfolding create_device_command cancel_family
create_command-exclusive device p now db {c} {db'} h k x m w =
    let rows = cancel_family device.id p.command_type db.commands in
    let kept : db'.commands ≡ insert c rows = ground (arith, k) in
    elim (mem-append rows (c ∷ []) (subst (Memᴰ x) kept m)) [
      | inl q ↦
          let (y, my, e) =
            mem-update (gives_way device.id p.command_type)
              (λ c. record c { status = CommandStatus.cancelled }) db.commands q in
          absurd (elim (Bool-cases (gives_way device.id p.command_type y)) [
            | inl g ↦ ground (arith, e, g, w)
            | inr g ↦ ground (arith, e, g, w)
          ])
      | inr q ↦ mem-singleton q
    ]
