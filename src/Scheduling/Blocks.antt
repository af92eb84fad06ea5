-- ===== src/Scheduling/Blocks.antt =====
-- apps/scheduling/services.py: schedules themselves and their weekly blocks.
use brandy_manager_back.Prelude.{
  ℕ, ℤ, pos, String, Option, none, some, not, ◌&&◌, ◌==◌, is_none, is_some, or_else, if◌then◌else◌,
}
use brandy_manager_back.Result.{
  Result, ok, result_map, does_not_exist, validation_error, schedule_content_unavailable,
}
use brandy_manager_back.Table.{get, save, insert, delete}
use brandy_manager_back.Models.Scheduling.{
  Schedule, ScheduleBlock, ContentType, ScheduleStatus, schedule_row, block_row, schedule_clean,
  block_clean, is_playlist_content, is_silence_content,
}
use brandy_manager_back.Store.{
  Db, Env, M, ◌>>=◌, ◌>>◌, return, gets, inspect, or_raise, modify, raise_if, full_clean,
  assert_new,
}
use brandy_manager_back.Scheduling.Checks.{
  assert_expected_revision, bump_revision, assert_playlist_schedulable, validate_block_conflicts,
}

-- `Schedule.objects.select_for_update().get(id=...)`
unfoldable pub load_schedule : ℕ → M Schedule
load_schedule k = do or_raise (← gets (λ db. get k db.schedules)) does_not_exist

-- `...get(id=block.id, schedule=schedule)`
abbrev pub of_schedule : ℕ → Option ScheduleBlock → Option ScheduleBlock
of_schedule k none = none
of_schedule k (some b) = if b.schedule == k then some b else none

unfoldable pub load_block : ℕ → ℕ → M ScheduleBlock
load_block k schedule = do
  or_raise (← gets (λ db. of_schedule schedule (get k db.blocks))) does_not_exist

-- The payload of a new schedule; `id` is the key that `uuid4` gives the row.
pub record ScheduleData : Type 0 where
  pub id : ℕ
  pub name : String
  pub description : Option String
  pub timezone : String
  pub valid_from : Option ℕ
  pub valid_until : Option ℕ

unfoldable pub create_schedule : Env → ℕ → ScheduleData → M Schedule
create_schedule env company payload = do
  raise_if (not (env.is_timezone payload.timezone)) (validation_error "timezone")
  let s : Schedule = record {
    id = payload.id;
    company = company;
    name = payload.name;
    description = or_else payload.description "";
    timezone = payload.timezone;
    status = ScheduleStatus.draft;
    valid_from = payload.valid_from;
    valid_until = payload.valid_until;
    version = 1;
    revision = 1;
    published_at = none;
  }
  full_clean (env.schedule_fields s) (schedule_clean s)
  assert_new s.id (← gets (λ db. db.schedules))
  modify (λ db. record db { schedules = insert s db.schedules })
  return s

-- A partial update: a field is `none` where the request leaves it out.
pub record MetadataPatch : Type 0 where
  pub name : Option String
  pub description : Option String
  pub timezone : Option String
  pub valid_from : Option (Option ℕ)
  pub valid_until : Option (Option ℕ)

unfoldable pub update_schedule_metadata : Env → ℕ → ℕ → MetadataPatch → M Schedule
unfolding load_schedule assert_expected_revision bump_revision
update_schedule_metadata env schedule_id expected_revision patch = do
  schedule ← load_schedule schedule_id
  assert_expected_revision schedule expected_revision
  let timezone = or_else patch.timezone schedule.timezone
  raise_if (is_some patch.timezone && not (env.is_timezone timezone)) (validation_error "timezone")
  let s = record schedule {
    name = or_else patch.name schedule.name;
    description = or_else patch.description schedule.description;
    timezone = timezone;
    valid_from = or_else patch.valid_from schedule.valid_from;
    valid_until = or_else patch.valid_until schedule.valid_until;
  }
  full_clean (env.schedule_fields s) (schedule_clean s)
  bump_revision env s

pub record BlockData : Type 0 where
  pub id : ℕ
  pub day_of_week : ℕ
  pub start_time : ℕ
  pub end_time : ℕ
  pub content_type : ContentType
  pub playlist_id : Option ℕ
  pub priority : Option ℤ
  pub volume_override : Option ℕ
  -- the instant of `auto_now_add`
  pub now : ℕ

-- `playlist = None`, or the playlist of a PLAYLIST block
unfoldable pub block_playlist : ℕ → ContentType → Option ℕ → Db → Result (Option ℕ)
block_playlist company content_type playlist_id db =
    if is_playlist_content content_type
    then result_map (λ p. some p.id) (assert_playlist_schedulable company playlist_id db)
    else ok none

-- the constructor call of `create_schedule_block`
unfoldable pub new_block : BlockData → ℕ → Option ℕ → ScheduleBlock
new_block payload schedule playlist = record {
  id = payload.id;
  schedule = schedule;
  day_of_week = payload.day_of_week;
  start_time = payload.start_time;
  end_time = payload.end_time;
  content_type = payload.content_type;
  channel = none;
  playlist = playlist;
  priority = or_else payload.priority (pos 0);
  volume_override = payload.volume_override;
  created_at = payload.now;
}

unfoldable pub create_schedule_block : Env → ℕ → ℕ → ℕ → BlockData → M Schedule
unfolding load_schedule assert_expected_revision bump_revision
create_schedule_block env company schedule_id expected_revision payload = do
  schedule ← load_schedule schedule_id
  assert_expected_revision schedule expected_revision
  playlist ← inspect (block_playlist company payload.content_type payload.playlist_id)
  let block = new_block payload schedule.id playlist
  full_clean (env.block_fields block) (block_clean block)
  assert_new block.id (← gets (λ db. db.blocks))
  modify (λ db. record db { blocks = insert block db.blocks })
  inspect (validate_block_conflicts block)
  bump_revision env schedule

pub record BlockPatch : Type 0 where
  pub content_type : Option ContentType
  pub playlist_id : Option (Option ℕ)
  pub day_of_week : Option ℕ
  pub start_time : Option ℕ
  pub end_time : Option ℕ
  pub priority : Option ℤ
  pub volume_override : Option (Option ℕ)

-- `if "content_type" in data: ...`
unfoldable pub patch_content : Option ContentType → ScheduleBlock → ScheduleBlock
patch_content none block = block
patch_content (some t) block = record block { content_type = t; playlist = none; channel = none }

-- `if "playlist_id" in data: ...`
unfoldable pub patch_playlist : ℕ → Option (Option ℕ) → ScheduleBlock → Db → Result ScheduleBlock
patch_playlist company none block db = ok block
patch_playlist company (some none) block db = ok (record block { playlist = none })
patch_playlist company (some (some k)) block db =
    result_map (λ p. record block { playlist = some p.id })
      (assert_playlist_schedulable company (some k) db)

-- `if block.content_type == SILENCE: ...`
unfoldable pub clear_silence : ScheduleBlock → ScheduleBlock
clear_silence block =
    if is_silence_content block.content_type
    then record block { playlist = none; channel = none }
    else block

-- the loop over the plain fields
unfoldable pub patch_block_fields : BlockPatch → ScheduleBlock → ScheduleBlock
patch_block_fields patch block = record block {
  day_of_week = or_else patch.day_of_week block.day_of_week;
  start_time = or_else patch.start_time block.start_time;
  end_time = or_else patch.end_time block.end_time;
  priority = or_else patch.priority block.priority;
  volume_override = or_else patch.volume_override block.volume_override;
}

unfoldable pub update_schedule_block : Env → ℕ → ℕ → ℕ → ℕ → BlockPatch → M Schedule
unfolding load_schedule load_block assert_expected_revision bump_revision
update_schedule_block env company schedule_id block_id expected_revision patch = do
  schedule ← load_schedule schedule_id
  block ← load_block block_id schedule.id
  assert_expected_revision schedule expected_revision
  block' ←
      inspect (patch_playlist company patch.playlist_id (patch_content patch.content_type block))
  let block'' = patch_block_fields patch block'
  raise_if (is_playlist_content block''.content_type && is_none block''.playlist)
      schedule_content_unavailable
  let b = clear_silence block''
  full_clean (env.block_fields b) (block_clean b)
  modify (λ db. record db { blocks = save b db.blocks })
  inspect (validate_block_conflicts b)
  bump_revision env schedule

unfoldable pub delete_schedule_block : Env → ℕ → ℕ → ℕ → M Schedule
unfolding load_schedule load_block assert_expected_revision bump_revision
delete_schedule_block env schedule_id block_id expected_revision = do
  schedule ← load_schedule schedule_id
  block ← load_block block_id schedule.id
  assert_expected_revision schedule expected_revision
  modify (λ db. record db { blocks = delete block.id db.blocks })
  bump_revision env schedule
