-- ===== src/Scheduling/Exceptions.antt =====
-- apps/scheduling/services.py: the dated exceptions of a schedule.
use brandy_manager_back.Prelude.{
  ℕ, ℤ, pos, String, Option, none, some, ◌==◌, or_else, if◌then◌else◌,
}
use brandy_manager_back.Result.{Result, ok, result_map, does_not_exist}
use brandy_manager_back.Table.{get, save, insert, delete}
use brandy_manager_back.Models.Scheduling.{
  Schedule, ScheduleException, Action, exception_row, exception_clean, is_replace, is_silence,
}
use brandy_manager_back.Store.{
  Db, Env, M, ◌>>=◌, ◌>>◌, gets, inspect, or_raise, modify, full_clean, assert_new,
}
use brandy_manager_back.Scheduling.Checks.{
  assert_expected_revision, bump_revision, assert_playlist_schedulable,
  validate_exception_conflicts,
}
use brandy_manager_back.Scheduling.Blocks.{load_schedule}

-- `...get(id=exception.id, schedule=schedule)`
abbrev pub of_schedule : ℕ → Option ScheduleException → Option ScheduleException
of_schedule k none = none
of_schedule k (some e) = if e.schedule == k then some e else none

unfoldable pub load_exception : ℕ → ℕ → M ScheduleException
load_exception k schedule = do
  or_raise (← gets (λ db. of_schedule schedule (get k db.exceptions))) does_not_exist

pub record ExceptionData : Type 0 where
  pub id : ℕ
  pub date : ℕ
  pub start_time : ℕ
  pub end_time : ℕ
  pub action : Action
  pub playlist_id : Option ℕ
  pub priority : Option ℤ
  pub volume_override : Option ℕ
  pub description : Option String
  pub now : ℕ

-- `playlist = None`, or the playlist of a REPLACE exception
unfoldable pub exception_playlist : ℕ → Action → Option ℕ → Db → Result (Option ℕ)
exception_playlist company action playlist_id db =
    if is_replace action
    then result_map (λ p. some p.id) (assert_playlist_schedulable company playlist_id db)
    else ok none

-- the constructor call of `create_schedule_exception`
unfoldable pub new_exception : ExceptionData → ℕ → Option ℕ → ScheduleException
new_exception payload schedule playlist = record {
  id = payload.id;
  schedule = schedule;
  date = payload.date;
  start_time = payload.start_time;
  end_time = payload.end_time;
  action = payload.action;
  channel = none;
  playlist = playlist;
  priority = or_else payload.priority (pos 0);
  volume_override = payload.volume_override;
  description = or_else payload.description "";
  created_at = payload.now;
}

unfoldable pub create_schedule_exception : Env → ℕ → ℕ → ℕ → ExceptionData → M Schedule
unfolding load_schedule assert_expected_revision bump_revision
create_schedule_exception env company schedule_id expected_revision payload = do
  schedule ← load_schedule schedule_id
  assert_expected_revision schedule expected_revision
  playlist ← inspect (exception_playlist company payload.action payload.playlist_id)
  let exception = new_exception payload schedule.id playlist
  full_clean (env.exception_fields exception) (exception_clean exception)
  assert_new exception.id (← gets (λ db. db.exceptions))
  modify (λ db. record db { exceptions = insert exception db.exceptions })
  inspect (validate_exception_conflicts exception)
  bump_revision env schedule

pub record ExceptionPatch : Type 0 where
  pub action : Option Action
  pub playlist_id : Option (Option ℕ)
  pub date : Option ℕ
  pub start_time : Option ℕ
  pub end_time : Option ℕ
  pub priority : Option ℤ
  pub volume_override : Option (Option ℕ)
  pub description : Option String

-- `if "action" in data: ...`
unfoldable pub patch_action : Option Action → ScheduleException → ScheduleException
patch_action none exception = exception
patch_action (some a) exception = record exception { action = a; playlist = none; channel = none }

-- `if "playlist_id" in data: ...`
unfoldable pub patch_exception_playlist :
    ℕ → Option (Option ℕ) → ScheduleException → Db → Result ScheduleException
patch_exception_playlist company none exception db = ok exception
patch_exception_playlist company (some none) exception db =
    ok (record exception { playlist = none })
patch_exception_playlist company (some (some k)) exception db =
    result_map (λ p. record exception { playlist = some p.id })
      (assert_playlist_schedulable company (some k) db)

-- the loop over the plain fields
unfoldable pub patch_exception_fields : ExceptionPatch → ScheduleException → ScheduleException
patch_exception_fields patch exception = record exception {
  date = or_else patch.date exception.date;
  start_time = or_else patch.start_time exception.start_time;
  end_time = or_else patch.end_time exception.end_time;
  priority = or_else patch.priority exception.priority;
  volume_override = or_else patch.volume_override exception.volume_override;
  description = or_else patch.description exception.description;
}

-- `if exception.action == SILENCE: ...`
unfoldable pub clear_silence_exception : ScheduleException → ScheduleException
clear_silence_exception exception =
    if is_silence exception.action
    then record exception { playlist = none; channel = none }
    else exception

unfoldable pub update_schedule_exception : Env → ℕ → ℕ → ℕ → ℕ → ExceptionPatch → M Schedule
unfolding load_schedule load_exception assert_expected_revision bump_revision
update_schedule_exception env company schedule_id exception_id expected_revision patch = do
  schedule ← load_schedule schedule_id
  exception ← load_exception exception_id schedule.id
  assert_expected_revision schedule expected_revision
  exception' ←
      inspect
        (patch_exception_playlist company patch.playlist_id (patch_action patch.action exception))
  let e = clear_silence_exception (patch_exception_fields patch exception')
  full_clean (env.exception_fields e) (exception_clean e)
  modify (λ db. record db { exceptions = save e db.exceptions })
  inspect (validate_exception_conflicts e)
  bump_revision env schedule

unfoldable pub delete_schedule_exception : Env → ℕ → ℕ → ℕ → M Schedule
unfolding load_schedule load_exception assert_expected_revision bump_revision
delete_schedule_exception env schedule_id exception_id expected_revision = do
  schedule ← load_schedule schedule_id
  exception ← load_exception exception_id schedule.id
  assert_expected_revision schedule expected_revision
  modify (λ db. record db { exceptions = delete exception.id db.exceptions })
  bump_revision env schedule
