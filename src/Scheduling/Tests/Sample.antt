-- ===== src/Scheduling/Tests/Sample.antt =====
-- A small company with one schedule, for the tests of scheduling.
use brandy_manager_back.Prelude.{
  ◌≡◌, refl, sym, subst, mem-singleton, none, some, [], ◌∷◌, Bool, true, false, pos, Memᴰ,
}
use Prim.Native.Nat.{◌/◌, ◌%◌}
use brandy_manager_back.Table.{Row}
use brandy_manager_back.Models.Organizations.{Zone, ZoneStatus, ScopeType, ResourceScope}
use brandy_manager_back.Models.Scheduling.{
  Schedule, ScheduleBlock, ScheduleAssignment, ScheduleException, ContentType, Action,
  ScheduleStatus, schedule_row, block_clean, block_row, exception_row, assignment_row,
}
use brandy_manager_back.Store.{Db, Env}
use brandy_manager_back.Scheduling.Selectors.{block_conflict}
use brandy_manager_back.Scheduling.Rows.{IsFree}
use brandy_manager_back.Scheduling.BlockConflicts.{IsCleanBlock}

-- A day has 1000 ticks here.
abbrev pub env : Env
env = record {
  schedule_fields = λ s. true;
  block_fields = λ b. true;
  exception_fields = λ e. true;
  assignment_fields = λ a. true;
  scope_fields = λ s. true;
  playlist_fields = λ p. true;
  item_fields = λ i. true;
  is_timezone = λ t. true;
  local_date = λ t at. at / 1000;
  local_time = λ t at. at % 1000;
}

abbrev pub zone : Zone
zone = record {
  id = 30;
  company = 1;
  site = 20;
  name = [];
  code = [];
  archived_at = none;
  status = ZoneStatus.active;
}

abbrev pub scope : ResourceScope
scope = record {
  id = 40;
  company = 1;
  scope_type = ScopeType.zone;
  organizational_unit = none;
  site = none;
  zone = some 30;
  resource_group = none;
}

abbrev pub schedule : Schedule
schedule = record {
  id = 5;
  company = 1;
  name = "week";
  description = "";
  timezone = "Europe/Madrid";
  status = ScheduleStatus.published;
  valid_from = none;
  valid_until = none;
  version = 2;
  revision = 7;
  published_at = some 0;
}

abbrev pub morning : ScheduleBlock
morning = record {
  id = 50;
  schedule = 5;
  day_of_week = 0;
  start_time = 100;
  end_time = 500;
  content_type = ContentType.silence;
  channel = none;
  playlist = none;
  priority = pos 1;
  volume_override = none;
  created_at = 3;
}

abbrev pub background : ScheduleBlock
background = record morning { id = 51; end_time = 900; priority = pos 0 }

abbrev pub holiday : ScheduleException
holiday = record {
  id = 70;
  schedule = 5;
  date = 8;
  start_time = 0;
  end_time = 999;
  action = Action.silence;
  channel = none;
  playlist = none;
  priority = pos 0;
  volume_override = none;
  description = "";
  created_at = 4;
}

abbrev pub assignment : ScheduleAssignment
assignment = record {
  id = 60;
  company = 1;
  schedule = 5;
  scope = 40;
  priority = pos 0;
  is_locked = false;
  starts_at = none;
  ends_at = none;
  is_active = true;
  created_at = 9;
}

abbrev pub db : Db
db = record {
  sites = [];
  zones = zone ∷ [];
  scopes = scope ∷ [];
  playlists = [];
  playlist_items = [];
  playlist_snapshots = [];
  playlist_snapshot_items = [];
  grants = [];
  schedules = schedule ∷ [];
  blocks = morning ∷ background ∷ [];
  exceptions = holiday ∷ [];
  assignments = assignment ∷ [];
}

-- Tables of one and of two rows.
pub one_IsFree :
    {A : Type 0} ⦃r : Row A⦄ (good : A → Type 0) (clash : A → A → Bool) (a : A)
    → good a
    → clash a a ≡ false
    → IsFree good clash (a ∷ [])
one_IsFree good clash a g h = record {
  each = λ x m. subst good (sym (mem-singleton m)) g;
  pairs = λ x y mx my. rw (mem-singleton mx, mem-singleton my) h;
}

pub blocks_IsFree : IsFree IsCleanBlock block_conflict db.blocks
unfolding block_clean
blocks_IsFree = record {
  each = λ x m. elim m [ Memᴰ.head e ↦ rw e refl | Memᴰ.tail t ↦ rw (mem-singleton t) refl ];
  pairs = λ x y mx my. elim mx [
    | Memᴰ.head e ↦ elim my [
      | Memᴰ.head e' ↦ rw (e, e') refl
      | Memᴰ.tail t' ↦ rw (e, mem-singleton t') refl
    ]
    | Memᴰ.tail t ↦ elim my [
      | Memᴰ.head e' ↦ rw (mem-singleton t, e') refl
      | Memᴰ.tail t' ↦ rw (mem-singleton t, mem-singleton t') refl
    ]
  ];
}
