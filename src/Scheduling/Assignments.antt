-- ===== src/Scheduling/Assignments.antt =====
-- apps/scheduling/services.py: assignments of a schedule to a company, a site or a zone, and the
-- schedule's own life cycle. The scopes come from apps/authorization/services.py.
use brandy_manager_back.Prelude.{
  ℕ, ℤ, pos, Option, none, some, List, Bool, true, false, ◌&&◌, ◌||◌, ◌==◌, or_else, same_key,
  select, first, if◌then◌else◌,
}
use brandy_manager_back.Result.{Result, ok, err, does_not_exist, schedule_assignment_invalid}
use brandy_manager_back.Table.{get, save, insert, update}
use brandy_manager_back.Models.Organizations.{
  Site, Zone, ResourceScope, ScopeType, site_is_archived, zone_is_archived, is_company_scope,
  is_site_scope, is_zone_scope, site_row, zone_row, scope_row,
}
use brandy_manager_back.Models.Scheduling.{
  Schedule, ScheduleAssignment, ScheduleStatus, assignment_row, assignment_clean,
}
use brandy_manager_back.Store.{
  Db, Env, M, ◌>>=◌, ◌>>◌, return, raise, gets, inspect, or_raise, modify, full_clean, assert_new,
}
use brandy_manager_back.Scheduling.Checks.{
  assert_expected_revision, bump_revision, validate_assignment_conflicts,
}
use brandy_manager_back.Scheduling.Blocks.{load_schedule}

-- `ResourceScope.objects.get_or_create(...)`: the row that is found, or the new one, saved.
unfoldable pub found_or_created : Env → Option ResourceScope → ResourceScope → M ResourceScope
found_or_created env (some scope) fresh db = return scope db
found_or_created env none fresh db =
    (do
      full_clean (env.scope_fields fresh) none
      assert_new fresh.id (← gets (λ db. db.scopes))
      modify (λ db. record db { scopes = insert fresh db.scopes })
      return fresh)
      db

unfoldable pub get_company_scope : Env → ℕ → ℕ → M ResourceScope
unfolding found_or_created
get_company_scope env new_id company = do
  found ←
      gets (λ db.
        first (select (λ s. s.company == company && is_company_scope s.scope_type) db.scopes))
  found_or_created env found (record {
    id = new_id;
    company = company;
    scope_type = ScopeType.company;
    organizational_unit = none;
    site = none;
    zone = none;
    resource_group = none;
  })

unfoldable pub get_or_create_site_scope : Env → ℕ → Site → M ResourceScope
unfolding found_or_created
get_or_create_site_scope env new_id site = do
  found ← gets (λ db. first (
      select
        (λ s.
          s.company == site.company
          && (is_site_scope s.scope_type && same_key s.site (some site.id)))
        db.scopes))
  found_or_created env found (record {
    id = new_id;
    company = site.company;
    scope_type = ScopeType.site;
    organizational_unit = none;
    site = some site.id;
    zone = none;
    resource_group = none;
  })

unfoldable pub get_or_create_zone_scope : Env → ℕ → Zone → M ResourceScope
unfolding found_or_created
get_or_create_zone_scope env new_id zone = do
  found ← gets (λ db. first (
      select
        (λ s.
          s.company == zone.company
          && (is_zone_scope s.scope_type && same_key s.zone (some zone.id)))
        db.scopes))
  found_or_created env found (record {
    id = new_id;
    company = zone.company;
    scope_type = ScopeType.zone;
    organizational_unit = none;
    site = none;
    zone = some zone.id;
    resource_group = none;
  })

-- The target of an assignment: `.filter(company=company, id=...).first()`, with the error of a
-- missing or archived row.
abbrev usable_site : Option Site → Result Site
usable_site none = err (schedule_assignment_invalid "site_id")
usable_site (some s) =
    if site_is_archived s.status then err (schedule_assignment_invalid "site_id") else ok s

abbrev usable_zone_at : Zone → Option Site → Result Zone
usable_zone_at z none = err does_not_exist
usable_zone_at z (some site) =
    if zone_is_archived z.status || site_is_archived site.status
    then err (schedule_assignment_invalid "zone_id")
    else ok z

abbrev usable_zone : Db → Option Zone → Result Zone
usable_zone db none = err (schedule_assignment_invalid "zone_id")
usable_zone db (some z) = usable_zone_at z (get z.site db.sites)

abbrev find_site : ℕ → ℕ → Db → Result Site
find_site company k db = usable_site (get k (select (λ s. s.company == company) db.sites))

abbrev find_zone : ℕ → ℕ → Db → Result Zone
find_zone company k db = usable_zone db (get k (select (λ z. z.company == company) db.zones))

unfoldable pub resolve_scope_from_payload :
    Env → ℕ → ℕ → ScopeType → Option ℕ → Option ℕ → M ResourceScope
unfolding get_company_scope get_or_create_site_scope get_or_create_zone_scope
resolve_scope_from_payload env new_id company ScopeType.company site_id zone_id =
    get_company_scope env new_id company
resolve_scope_from_payload env new_id company ScopeType.site none zone_id =
    raise (schedule_assignment_invalid "site_id")
resolve_scope_from_payload env new_id company ScopeType.site (some k) zone_id = do
  site ← inspect (find_site company k)
  get_or_create_site_scope env new_id site
resolve_scope_from_payload env new_id company ScopeType.zone site_id none =
    raise (schedule_assignment_invalid "zone_id")
resolve_scope_from_payload env new_id company ScopeType.zone site_id (some k) = do
  zone ← inspect (find_zone company k)
  get_or_create_zone_scope env new_id zone
resolve_scope_from_payload env new_id company _ site_id zone_id =
    raise (schedule_assignment_invalid "scope_type")

-- `scope_new_id` is the key of the scope, should it have to be created.
pub record AssignmentData : Type 0 where
  pub id : ℕ
  pub scope_new_id : ℕ
  pub scope_type : ScopeType
  pub site_id : Option ℕ
  pub zone_id : Option ℕ
  pub priority : Option ℤ
  pub is_locked : Option Bool
  pub starts_at : Option ℕ
  pub ends_at : Option ℕ
  pub is_active : Option Bool
  pub now : ℕ

-- the constructor call of `create_schedule_assignment`
unfoldable pub new_assignment : AssignmentData → ℕ → ℕ → ℕ → ScheduleAssignment
new_assignment payload company schedule scope = record {
  id = payload.id;
  company = company;
  schedule = schedule;
  scope = scope;
  priority = or_else payload.priority (pos 0);
  is_locked = or_else payload.is_locked false;
  starts_at = payload.starts_at;
  ends_at = payload.ends_at;
  is_active = or_else payload.is_active true;
  created_at = payload.now;
}

unfoldable pub create_schedule_assignment : Env → ℕ → ℕ → ℕ → AssignmentData → M Schedule
unfolding load_schedule assert_expected_revision bump_revision
create_schedule_assignment env company schedule_id expected_revision payload = do
  schedule ← load_schedule schedule_id
  assert_expected_revision schedule expected_revision
  scope ←
      resolve_scope_from_payload env payload.scope_new_id company payload.scope_type payload.site_id
        payload.zone_id
  let assignment = new_assignment payload company schedule.id scope.id
  full_clean (env.assignment_fields assignment) (assignment_clean schedule scope assignment)
  assert_new assignment.id (← gets (λ db. db.assignments))
  modify (λ db. record db { assignments = insert assignment db.assignments })
  inspect (validate_assignment_conflicts assignment)
  bump_revision env schedule

-- `...get(id=assignment.id, schedule=schedule)`
abbrev pub of_schedule : ℕ → Option ScheduleAssignment → Option ScheduleAssignment
of_schedule k none = none
of_schedule k (some a) = if a.schedule == k then some a else none

unfoldable pub load_assignment : ℕ → ℕ → M ScheduleAssignment
load_assignment k schedule = do
  or_raise (← gets (λ db. of_schedule schedule (get k db.assignments))) does_not_exist

pub record AssignmentPatch : Type 0 where
  pub priority : Option ℤ
  pub is_locked : Option Bool
  pub starts_at : Option (Option ℕ)
  pub ends_at : Option (Option ℕ)
  pub is_active : Option Bool

unfoldable pub patch_assignment_fields : AssignmentPatch → ScheduleAssignment → ScheduleAssignment
patch_assignment_fields patch a = record a {
  priority = or_else patch.priority a.priority;
  is_locked = or_else patch.is_locked a.is_locked;
  starts_at = or_else patch.starts_at a.starts_at;
  ends_at = or_else patch.ends_at a.ends_at;
  is_active = or_else patch.is_active a.is_active;
}

-- `if assignment.is_active: validate_assignment_conflicts(...)`
unfoldable pub validate_if_active : ScheduleAssignment → Db → Result (Unit {0})
validate_if_active a db = if a.is_active then validate_assignment_conflicts a db else ok tt

unfoldable pub update_schedule_assignment : Env → ℕ → ℕ → ℕ → AssignmentPatch → M Schedule
unfolding load_schedule load_assignment assert_expected_revision bump_revision
update_schedule_assignment env schedule_id assignment_id expected_revision patch = do
  schedule ← load_schedule schedule_id
  assignment ← load_assignment assignment_id schedule.id
  assert_expected_revision schedule expected_revision
  let a = patch_assignment_fields patch assignment
  scope ← or_raise (← gets (λ db. get a.scope db.scopes)) does_not_exist
  full_clean (env.assignment_fields a) (assignment_clean schedule scope a)
  modify (λ db. record db { assignments = save a db.assignments })
  inspect (validate_if_active a)
  bump_revision env schedule

-- `save(update_fields=[...])` runs `full_clean` too.
unfoldable pub deactivate_schedule_assignment : Env → ℕ → ℕ → ℕ → M Schedule
unfolding load_schedule load_assignment assert_expected_revision bump_revision
deactivate_schedule_assignment env schedule_id assignment_id expected_revision = do
  schedule ← load_schedule schedule_id
  assignment ← load_assignment assignment_id schedule.id
  assert_expected_revision schedule expected_revision
  let a = record assignment { is_active = false }
  scope ← or_raise (← gets (λ db. get a.scope db.scopes)) does_not_exist
  full_clean (env.assignment_fields a) (assignment_clean schedule scope a)
  modify (λ db. record db { assignments = save a db.assignments })
  bump_revision env schedule

-- `schedule.assignments.filter(is_active=True).update(is_active=False)`
unfoldable pub deactivate_all : ℕ → List ScheduleAssignment → List ScheduleAssignment
deactivate_all schedule =
    update (λ a. a.schedule == schedule && a.is_active) (λ a. record a { is_active = false })

unfoldable pub archive_schedule : Env → ℕ → ℕ → M Schedule
unfolding load_schedule assert_expected_revision bump_revision
archive_schedule env schedule_id expected_revision = do
  schedule ← load_schedule schedule_id
  assert_expected_revision schedule expected_revision
  modify (λ db. record db { assignments = deactivate_all schedule.id db.assignments })
  bump_revision env (record schedule { status = ScheduleStatus.archived })

unfoldable pub reactivate_schedule : Env → ℕ → ℕ → M Schedule
unfolding load_schedule assert_expected_revision bump_revision
reactivate_schedule env schedule_id expected_revision = do
  schedule ← load_schedule schedule_id
  assert_expected_revision schedule expected_revision
  bump_revision env (record schedule { status = ScheduleStatus.draft })

unfoldable pub disable_schedule : Env → ℕ → ℕ → M Schedule
unfolding load_schedule assert_expected_revision bump_revision
disable_schedule env schedule_id expected_revision = do
  schedule ← load_schedule schedule_id
  assert_expected_revision schedule expected_revision
  modify (λ db. record db { assignments = deactivate_all schedule.id db.assignments })
  bump_revision env (record schedule { status = ScheduleStatus.disabled })
