-- ===== src/Devices/Delivery.antt =====
-- What `deliver_device_commands` and `acknowledge_device_command` (apps/devices/services.py) promise.
use brandy_manager_back.Prelude.{
  ℕ, ◌≤◌, ◌≡◌, refl, sym, ap, ◌∙◌, String, some, List, Bool, true, false, ◌&&◌, ◌==◌, arith, select,
  sort_by, length, length-take, mem-take, mem-select, mem-sort_by, exists, exists-mem, exists-false,
  mem-map, subst, length-map, Option-cases, Bool-cases, inl, inr, Memᴰ, if◌then◌else◌,
}
use brandy_manager_back.Result.{ok, err, type_error}
use brandy_manager_back.Table.{
  get, save, update, pk-get, get-save, mem-update, update-mem, update-HasUniqueKeys, HasUniqueKeys,
}
use brandy_manager_back.Devices.Models.{DeviceCommand, CommandStatus, command_row}
use brandy_manager_back.Devices.Store.{DeviceDb, DeviceEnv}
use brandy_manager_back.Devices.Commands.{
  is_open, is_pending, is_terminal, due, not_due, deliverable, older_command, expire_commands,
  command_batch, mark_delivered, deliver_batch, deliver_device_commands, Answer, answer_status,
  same_status, answered, acknowledge_device_command,
}

-- An answer that is accepted is stored, under the command's key.
acknowledged_stored :
    (device k : ℕ) (answer : Answer) (result message : String) (now : ℕ) (db : DeviceDb)
    {c : DeviceCommand} {db' : DeviceDb}
    → acknowledge_device_command device k answer result message now db ≡ ok (c, db')
    → is_terminal (answer_status answer) ≡ true
    → (get k db'.commands ≡ some c) × (c.device ≡ device) × (c.status ≡ answer_status answer)
unfolding acknowledge_device_command answered
acknowledged_stored device k answer result message now db {c} {db'} h t =
    elim (Option-cases (get k db.commands)) [
      | inl n ↦ absurd (ground arith)
      | inr (old, l) ↦
          let a = answered answer result message now old in
          let key : a.id ≡ k = pk-get k db.commands l in
          let saved : get k (save a db.commands) ≡ some a =
            ap (λ j. get j (save a db.commands)) (sym key)
            ∙ get-save a db.commands (ap (λ j. get j db.commands) key ∙ l) in
          elim (Bool-cases (is_terminal old.status)) [
            | inl final ↦ ground (arith, l)
            | inr first_one ↦ ground (arith, l, saved)
          ]
    ]

-- A result is final: once a player has answered a command with EXECUTED or FAILED, every later answer
-- before the command expires leaves the command as it is. The same answer is accepted again, and
-- any other fails, with a TypeError.
pub acknowledge-final :
    (device k : ℕ) (answer : Answer) (result message : String) (now : ℕ) (db : DeviceDb)
    {c : DeviceCommand} {db' : DeviceDb}
    → acknowledge_device_command device k answer result message now db ≡ ok (c, db')
    → is_terminal (answer_status answer) ≡ true
    → (answer' : Answer) (result' message' : String) (now' : ℕ) → due c.expires_at now' ≡ false
    → acknowledge_device_command device k answer' result' message' now' db'
      ≡ (if same_status c.status answer' then ok (c, db') else err (type_error "message"))
unfolding acknowledge_device_command
acknowledge-final device k answer result message now db h t answer' result' message' now' late =
    let (g, own, s) = acknowledged_stored device k answer result message now db h t in
    ground (arith, g, own, s)

-- Rows, batch and database of one delivery.
abbrev expired_rows : ℕ → ℕ → DeviceDb → List DeviceCommand
expired_rows device now db = expire_commands device now db.commands

no_open_due :
    (device now : ℕ) (db : DeviceDb) (c : DeviceCommand)
    → Memᴰ c (expired_rows device now db)
    → c.device ≡ device
    → is_open c.status ≡ true
    → due c.expires_at now ≡ false
unfolding expire_commands
no_open_due device now db c m own o =
    let (x, mx, q) =
      mem-update (λ c. c.device == device && (is_open c.status && due c.expires_at now))
        (λ c. record c { status = CommandStatus.expired }) db.commands m in
    ground arith

in_batch :
    (size device now : ℕ) (rows : List DeviceCommand) {b : DeviceCommand}
    → Memᴰ b (command_batch size device now rows)
    → Memᴰ b rows × (deliverable device now b ≡ true)
unfolding command_batch
in_batch size device now rows m = mem-select (deliverable device now) rows (
    mem-sort_by older_command (select (deliverable device now) rows)
      (mem-take size (sort_by older_command (select (deliverable device now) rows)) m))

batch_size :
    (size device now : ℕ) (rows : List DeviceCommand)
    → length (command_batch size device now rows) ≤ size
unfolding command_batch
batch_size size device now rows =
    length-take size (sort_by older_command (select (deliverable device now) rows))

abbrev listed : List DeviceCommand → DeviceCommand → Bool
listed batch c = exists (λ b. b.id == c.id && is_pending b.status) batch

-- A row of the batch is marked by its id exactly where it is pending.
listed-pending :
    (size device now : ℕ) (rows : List DeviceCommand) (b : DeviceCommand)
    → HasUniqueKeys rows
    → Memᴰ b (command_batch size device now rows)
    → listed (command_batch size device now rows) b ≡ is_pending b.status
listed-pending size device now rows b unique m =
    let batch = command_batch size device now rows in
    let p : DeviceCommand → Bool = λ x. x.id == b.id && is_pending x.status in
    elim (Bool-cases (listed batch b)) [
      | inl h ↦
          let (x, mx, q) = exists-mem p batch h in
          let same =
            unique x b (in_batch size device now rows mx).0 (in_batch size device now rows m).0
              (ground arith) in
          h ∙ sym (ap (λ y. is_pending y.status) (sym same) ∙ ground arith)
      | inr h ↦ h ∙ sym (ground (arith, exists-false p batch h b m))
    ]

-- A command of the batch is stored as it is returned.
batch_stored :
    (size device now : ℕ) (rows : List DeviceCommand) {b : DeviceCommand}
    → HasUniqueKeys rows
    → Memᴰ b (command_batch size device now rows)
    → Memᴰ (mark_delivered now b) (deliver_batch now (command_batch size device now rows) rows)
unfolding deliver_batch mark_delivered
batch_stored size device now rows {b} unique m =
    let batch = command_batch size device now rows in
    let f : DeviceCommand → DeviceCommand =
      λ c. record c { status = CommandStatus.delivered; delivered_at = some now } in
    subst (λ t. Memᴰ (if t then f b else b) (update (listed batch) f rows))
      (listed-pending size device now rows b unique m)
      (update-mem (listed batch) f rows (in_batch size device now rows m).0)

marked :
    (device now : ℕ) (b : DeviceCommand)
    → deliverable device now b ≡ true
    → ((mark_delivered now b).device ≡ device)
      × ((mark_delivered now b).status ≡ CommandStatus.delivered)
      × (not_due (mark_delivered now b).expires_at now ≡ true)
unfolding mark_delivered
marked device now b h = ground arith

none_open_due :
    (size device now : ℕ) (db : DeviceDb) (c : DeviceCommand)
    → HasUniqueKeys (expired_rows device now db)
    → Memᴰ c (
        deliver_batch now
          (command_batch size device now (expired_rows device now db))
          (expired_rows device now db))
    → c.device ≡ device
    → is_open c.status ≡ true
    → due c.expires_at now ≡ false
unfolding deliver_batch
none_open_due size device now db c unique m own o =
    let rows = expired_rows device now db in
    let batch = command_batch size device now rows in
    let f : DeviceCommand → DeviceCommand =
      λ c. record c { status = CommandStatus.delivered; delivered_at = some now } in
    let (x, mx, q) = mem-update (listed batch) f rows m in
    elim (Bool-cases (listed batch x)) [
      | inl h ↦
          let (y, my, t) = exists-mem (λ b. b.id == x.id && is_pending b.status) batch h in
          let same = unique y x (in_batch size device now rows my).0 mx (ground arith) in
          ground
            (arith, q, h, ap (λ z. due z.expires_at now) same, (in_batch size device now rows my).1)
      | inr h ↦ ground (arith, h, no_open_due device now db x mx)
    ]

-- What one delivery promises: at most a batch of commands; each is the device's, is stored as DELIVERED,
-- and has not expired; and no command of the device that is stored open has expired.
pub record IsDelivery (size device now : ℕ) (batch : List DeviceCommand) (db' : DeviceDb)
    : Type 0 where
  pub bounded : length batch ≤ size
  pub each :
      (c : DeviceCommand)
      → Memᴰ c batch
      → Memᴰ c db'.commands
        × (c.device ≡ device)
        × (c.status ≡ CommandStatus.delivered)
        × (not_due c.expires_at now ≡ true)
  pub expired :
      (c : DeviceCommand)
      → Memᴰ c db'.commands
      → c.device ≡ device
      → is_open c.status ≡ true
      → due c.expires_at now ≡ false

expired-HasUniqueKeys :
    (device now : ℕ) (db : DeviceDb)
    → HasUniqueKeys db.commands
    → HasUniqueKeys (expired_rows device now db)
unfolding expire_commands
expired-HasUniqueKeys device now db u =
    update-HasUniqueKeys (λ c. c.device == device && (is_open c.status && due c.expires_at now))
      (λ c. record c { status = CommandStatus.expired }) db.commands (λ c. refl) u

-- Every delivery to a device keeps that promise, where the ids of the commands are unique.
pub deliver-IsDelivery :
    (env : DeviceEnv) (device now : ℕ) (db : DeviceDb)
    → HasUniqueKeys db.commands
    → IsDelivery env.command_batch_size device now
        (deliver_device_commands env device now db).0
        (deliver_device_commands env device now db).1
unfolding deliver_device_commands
deliver-IsDelivery env device now db u =
    let rows = expired_rows device now db in
    let unique = expired-HasUniqueKeys device now db u in
    let size = env.command_batch_size in
    record {
      bounded =
          subst (λ n. n ≤ size)
            (sym (length-map (mark_delivered now) (command_batch size device now rows)))
            (batch_size size device now rows);
      each = λ c m.
          let (b, mb, q) = mem-map (mark_delivered now) (command_batch size device now rows) m in
          let (own, delivered, fresh) = marked device now b (in_batch size device now rows mb).1 in
          rw q (batch_stored size device now rows unique mb, own, delivered, fresh);
      expired = λ c m. none_open_due size device now db c unique m;
    }
