-- ===== src/Scheduling/Tests/Changes.antt =====
-- Requests on the sample, and instances of the theorems about what they write.
use brandy_manager_back.Prelude.{ℕ, ◌≡◌, ◌≢◌, refl, none, some, [], ◌∷◌, false, pos, Memᴰ}
use brandy_manager_back.Result.{ok, err, schedule_conflict, schedule_revision_conflict}
use brandy_manager_back.Table.{get}
use brandy_manager_back.Models.Organizations.{Zone}
use brandy_manager_back.Models.Scheduling.{
  Schedule, ScheduleBlock, ScheduleAssignment, ContentType, ScheduleStatus, schedule_row,
  schedule_clean, block_clean, exception_clean, block_row, exception_row, assignment_row,
}
use brandy_manager_back.Store.{Db}
use brandy_manager_back.Scheduling.Selectors.{
  list_exception_conflicts, block_conflict, exception_conflict, list_block_conflicts,
}
use brandy_manager_back.Scheduling.Checks.{
  validate_block_conflicts, validate_exception_conflicts, assert_expected_revision, bump_revision,
}
use brandy_manager_back.Scheduling.Blocks.{
  BlockData, create_schedule_block, block_playlist, new_block, load_schedule,
}
use brandy_manager_back.Scheduling.Assignments.{archive_schedule, deactivate_all}
use brandy_manager_back.Scheduling.Exceptions.{
  ExceptionPatch, update_schedule_exception, load_exception, patch_exception_fields,
  patch_exception_playlist, patch_action, clear_silence_exception,
}
use brandy_manager_back.Scheduling.Requests.{Request, run}
use brandy_manager_back.Scheduling.Resolution.{resolve_effective_schedule_for_zone}
use brandy_manager_back.Scheduling.Rows.{IsFree}
use brandy_manager_back.Scheduling.Revision.{accepted_revision, no_lost_update}
use brandy_manager_back.Scheduling.BlockConflicts.{IsCleanBlock, run-IsFree_blocks}
use brandy_manager_back.Scheduling.ExceptionConflicts.{IsCleanException, run-IsFree_exceptions}
use brandy_manager_back.Scheduling.AssignmentConflicts.{
  IsCleanAssignment, active_conflict, run-IsFree_assignments,
}
use brandy_manager_back.Scheduling.Retirement.{AirsSchedule, retired_never_airs}
use brandy_manager_back.Scheduling.Tests.Sample.{
  env, schedule, morning, background, holiday, assignment, db, one_IsFree, blocks_IsFree,
}

abbrev evening : BlockData
evening = record {
  id = 52;
  day_of_week = 0;
  start_time = 600;
  end_time = 800;
  content_type = ContentType.silence;
  playlist_id = none;
  priority = some (pos 1);
  volume_override = some 40;
  now = 10;
}

abbrev accepted : Schedule
accepted = record schedule { revision = 8 }

abbrev evening_block : ScheduleBlock
evening_block = record {
  id = 52;
  schedule = 5;
  day_of_week = 0;
  start_time = 600;
  end_time = 800;
  content_type = ContentType.silence;
  channel = none;
  playlist = none;
  priority = pos 1;
  volume_override = some 40;
  created_at = 10;
}

abbrev db_evening : Db
db_evening = record db {
  schedules = accepted ∷ [];
  blocks = morning ∷ background ∷ evening_block ∷ [];
}

accepts_create : run env 1 5 7 (Request.create_block evening) db ≡ ok (accepted, db_evening)
unfolding run create_schedule_block load_schedule assert_expected_revision bump_revision
    block_playlist new_block block_clean schedule_clean validate_block_conflicts
    list_block_conflicts
accepts_create = refl

-- the same range at the priority of `background` is refused, and the error names the conflicting row
clash_refused :
    run env 1 5 7 (Request.create_block (record evening { priority = none })) db
    ≡ err (schedule_conflict (51 ∷ []))
unfolding run create_schedule_block load_schedule assert_expected_revision bump_revision
    block_playlist new_block block_clean schedule_clean validate_block_conflicts
    list_block_conflicts
clash_refused = refl

stale_refused : run env 1 5 6 Request.archive db ≡ err schedule_revision_conflict
unfolding run archive_schedule load_schedule assert_expected_revision
stale_refused = refl

run-IsFree_blocks_example : IsFree IsCleanBlock block_conflict db_evening.blocks
run-IsFree_blocks_example =
    run-IsFree_blocks env 1 5 7 (Request.create_block evening) db accepts_create blocks_IsFree

no_lost_update_example :
    run env 1 5 7 Request.archive db_evening ≢ ok (record accepted { revision = 9 }, db_evening)
no_lost_update_example =
    no_lost_update env env 1 1 5 7 (Request.create_block evening) Request.archive db accepts_create
      (record accepted { revision = 9 }) db_evening

accepted_revision_example :
    ((s0 : Schedule) × (get 5 db.schedules ≡ some s0) × (s0.revision ≡ 7))
    × (get 5 db_evening.schedules ≡ some accepted)
    × (accepted.revision ≡ 8)
accepted_revision_example =
    accepted_revision env 1 5 7 (Request.create_block evening) db accepts_create

-- The holiday is Tuesday 9 in place of Tuesday 8.
abbrev later : ExceptionPatch
later = record {
  date = some 9;
  start_time = none;
  end_time = none;
  action = none;
  playlist_id = none;
  priority = none;
  volume_override = none;
  description = none;
}

abbrev db_later : Db
db_later = record db { schedules = accepted ∷ []; exceptions = record holiday { date = 9 } ∷ [] }

accepts_move : run env 1 5 7 (Request.update_exception 70 later) db ≡ ok (accepted, db_later)
unfolding run update_schedule_exception load_schedule load_exception assert_expected_revision
    bump_revision patch_exception_fields patch_exception_playlist patch_action
    clear_silence_exception exception_clean schedule_clean validate_exception_conflicts
    list_exception_conflicts
accepts_move = refl

run-IsFree_exceptions_example : IsFree IsCleanException exception_conflict db_later.exceptions
unfolding exception_clean
run-IsFree_exceptions_example =
    run-IsFree_exceptions env 1 5 7 (Request.update_exception 70 later) db accepts_move
      (one_IsFree IsCleanException exception_conflict holiday refl refl)

abbrev db_archived : Db
db_archived = record db {
  schedules = record accepted { status = ScheduleStatus.archived } ∷ [];
  assignments = record assignment { is_active = false } ∷ [];
}

archive_accepted :
    run env 1 5 7 Request.archive db
    ≡ ok (record accepted { status = ScheduleStatus.archived }, db_archived)
unfolding run archive_schedule load_schedule assert_expected_revision bump_revision schedule_clean
    deactivate_all
archive_accepted = refl

run-IsFree_assignments_example : IsFree IsCleanAssignment active_conflict db_archived.assignments
run-IsFree_assignments_example =
    run-IsFree_assignments env 1 5 7 Request.archive db archive_accepted
      (one_IsFree IsCleanAssignment active_conflict assignment refl refl)

retired_never_airs_example :
    ((z : Zone) (at : ℕ)
      → ¬ AirsSchedule 5 (resolve_effective_schedule_for_zone env db_archived z at))
    × ((a : ScheduleAssignment)
        → Memᴰ a db_archived.assignments
        → a.schedule ≡ 5
        → a.is_active ≡ false)
retired_never_airs_example = retired_never_airs env 1 5 7 Request.archive db tt archive_accepted
