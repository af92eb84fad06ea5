-- ===== src/Scheduling/Resolution.antt =====
-- apps/scheduling/selectors.py: which schedule, exception and block a zone follows at an instant.
use brandy_manager_back.Prelude.{
  ℕ, ◌+◌, Option, none, some, List, [], ◌∷◌, Bool, true, false, ◌&&◌, ◌||◌, ltb, leb, ◌==◌, ltb_ℤ,
  eqb_ℤ, same_key, select, first, sort_by, if◌then◌else◌,
}
use Prim.Native.Nat.{◌%◌}
use brandy_manager_back.Table.{get}
use brandy_manager_back.Models.Organizations.{
  Zone, ResourceScope, ScopeType, is_company_scope, is_site_scope, is_zone_scope, scope_row,
}
use brandy_manager_back.Models.Scheduling.{
  Schedule, ScheduleBlock, ScheduleException, ScheduleAssignment, schedule_row,
}
use brandy_manager_back.Store.{Db, Env}
use brandy_manager_back.Scheduling.Selectors.{assignment_applies_at, schedule_applies_on_date}

-- `date.weekday()` of a proleptic ordinal: Monday is 0, and ordinal 1 is a Monday.
abbrev pub weekday : ℕ → ℕ
weekday ordinal = (ordinal + 6) % 7

-- `SCOPE_SPECIFICITY`
unfoldable pub scope_specificity : ScopeType → ℕ
scope_specificity ScopeType.company = 1
scope_specificity ScopeType.organizational_unit = 2
scope_specificity ScopeType.resource_group = 3
scope_specificity ScopeType.site = 4
scope_specificity ScopeType.zone = 5

unfoldable pub scope_is_relevant : Zone → ResourceScope → Bool
scope_is_relevant zone s =
    s.company == zone.company
    && (is_company_scope s.scope_type
        || (is_site_scope s.scope_type && same_key s.site (some zone.site)
            || is_zone_scope s.scope_type && same_key s.zone (some zone.id)))

unfoldable pub list_relevant_scopes_for_zone : Db → Zone → List ResourceScope
list_relevant_scopes_for_zone db zone = select (scope_is_relevant zone) db.scopes

-- an assignment that the loop of `ordered_assignments_for_zone_at` keeps
pub record Candidate : Type 0 where
  pub assignment : ScheduleAssignment
  pub schedule : Schedule
  pub scope_type : ScopeType

-- The joins of the loop: the assignment's scope among the relevant ones, and its schedule.
abbrev pub joined : ScheduleAssignment → Option ResourceScope → Option Schedule → Option Candidate
joined a (some scope) (some s) =
    some (record { assignment = a; schedule = s; scope_type = scope.scope_type })
joined a _ _ = none

unfoldable pub candidate_of : Env → Db → Zone → ℕ → ScheduleAssignment → Option Candidate
candidate_of env db zone at a =
    joined a (get a.scope (list_relevant_scopes_for_zone db zone)) (get a.schedule db.schedules)

abbrev pub candidate_applies : Env → ℕ → Candidate → Bool
candidate_applies env at c =
    assignment_applies_at c.assignment at
    && schedule_applies_on_date c.schedule (env.local_date c.schedule.timezone at)

-- `if not applies: continue`, else `candidates.append(...)`
abbrev pub keep_candidate : Env → ℕ → Option Candidate → List Candidate → List Candidate
keep_candidate env at none rest = rest
keep_candidate env at (some c) rest = if candidate_applies env at c then c ∷ rest else rest

unfoldable pub collect_candidates : Env → Db → Zone → ℕ → List ScheduleAssignment → List Candidate
unfolding candidate_of
collect_candidates env db zone at [] = []
collect_candidates env db zone at (a ∷ as') =
    keep_candidate env at (candidate_of env db zone at a) (collect_candidates env db zone at as')

abbrev pub bool_rank : Bool → ℕ
bool_rank true = 1
bool_rank false = 0

-- `order_by("-is_locked", "-priority", "-created_at")` of the query
unfoldable pub queried_before : ScheduleAssignment → ScheduleAssignment → Bool
queried_before a b =
    ltb (bool_rank b.is_locked) (bool_rank a.is_locked)
    || (bool_rank a.is_locked == bool_rank b.is_locked)
      && (ltb_ℤ b.priority a.priority
          || eqb_ℤ a.priority b.priority && ltb b.created_at a.created_at)

-- `sorted(..., key=(is_locked, priority, specificity, created_at), reverse=True)`
unfoldable pub ranked_before : Candidate → Candidate → Bool
unfolding scope_specificity
ranked_before c d =
    ltb (bool_rank d.assignment.is_locked) (bool_rank c.assignment.is_locked)
    || (bool_rank c.assignment.is_locked == bool_rank d.assignment.is_locked)
      && (ltb_ℤ d.assignment.priority c.assignment.priority
          || eqb_ℤ c.assignment.priority d.assignment.priority
            && (ltb (scope_specificity d.scope_type) (scope_specificity c.scope_type)
                || (scope_specificity c.scope_type == scope_specificity d.scope_type)
                  && ltb d.assignment.created_at c.assignment.created_at))

unfoldable pub ordered_assignments_for_zone_at : Env → Db → Zone → ℕ → List Candidate
unfolding ranked_before collect_candidates queried_before sort_by
ordered_assignments_for_zone_at env db zone at = sort_by ranked_before (
    collect_candidates env db zone at (
      sort_by queried_before
        (select (λ a. a.company == zone.company && a.is_active) db.assignments)))

-- `order_by("-priority", "-created_at")` of exceptions and blocks
abbrev pub exception_before : ScheduleException → ScheduleException → Bool
exception_before a b =
    ltb_ℤ b.priority a.priority || eqb_ℤ a.priority b.priority && ltb b.created_at a.created_at

abbrev pub block_before : ScheduleBlock → ScheduleBlock → Bool
block_before a b =
    ltb_ℤ b.priority a.priority || eqb_ℤ a.priority b.priority && ltb b.created_at a.created_at

abbrev pub exception_covers : ℕ → ℕ → ℕ → ScheduleException → Bool
exception_covers schedule date time e =
    e.schedule == schedule && (e.date == date && (leb e.start_time time && ltb time e.end_time))

abbrev pub block_covers : ℕ → ℕ → ℕ → ScheduleBlock → Bool
block_covers schedule day time b =
    b.schedule == schedule
    && (b.day_of_week == day && (leb b.start_time time && ltb time b.end_time))

unfoldable pub current_exception : Env → Db → ℕ → Schedule → Option ScheduleException
unfolding sort_by
current_exception env db at s = first (
    sort_by exception_before (
      select (exception_covers s.id (env.local_date s.timezone at) (env.local_time s.timezone at))
        db.exceptions))

unfoldable pub current_block : Env → Db → ℕ → Schedule → Option ScheduleBlock
unfolding sort_by
current_block env db at s = first (
    sort_by block_before (
      select
        (block_covers s.id (weekday (env.local_date s.timezone at)) (env.local_time s.timezone at))
        db.blocks))

-- The dictionary that the resolution answers with, by its `content_kind`.
pub data Resolved : Type 0 where
  by_exception : Candidate → ScheduleException → Resolved
  by_block : Candidate → ScheduleBlock → Resolved
  without_content : Option Candidate → Resolved

-- The body of the loop over the candidates, and what follows it.
abbrev pub resolve_one :
    Candidate → Option ScheduleException → Option ScheduleBlock → Resolved → Resolved
resolve_one c (some e) b rest = by_exception c e
resolve_one c none (some b) rest = by_block c b
resolve_one c none none rest = rest

unfoldable pub resolve_candidates : Env → Db → ℕ → Option Candidate → List Candidate → Resolved
resolve_candidates env db at fallback [] = without_content fallback
resolve_candidates env db at fallback (c ∷ cs) =
    resolve_one c (current_exception env db at c.schedule) (current_block env db at c.schedule)
      (resolve_candidates env db at fallback cs)

unfoldable pub resolve_effective_schedule_for_zone : Env → Db → Zone → ℕ → Resolved
unfolding ordered_assignments_for_zone_at resolve_candidates current_exception current_block
resolve_effective_schedule_for_zone env db zone at =
    let candidates = ordered_assignments_for_zone_at env db zone at in
    resolve_candidates env db at (first candidates) candidates
