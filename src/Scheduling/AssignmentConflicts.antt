-- ===== src/Scheduling/AssignmentConflicts.antt =====
-- The invariant behind `validate_assignment_conflicts`, whatever requests are run.
use brandy_manager_back.Prelude.{
  ℕ, ◌≡◌, refl, List, [], Bool, true, false, ◌&&◌, arith, ◌==◌, inl, inr, select, select-nil,
  select-eq-nil, Bool-cases, Option-cases,
}
use brandy_manager_back.Result.{ok, Result-cases}
use brandy_manager_back.Table.{get, save, insert}
use brandy_manager_back.Models.Scheduling.{
  Schedule, ScheduleAssignment, block_row, exception_row, assignment_row, schedule_row,
  assignment_clean, validate_date_range,
}
use brandy_manager_back.Models.Organizations.{scope_row}
use brandy_manager_back.Store.{Db, Env}
use brandy_manager_back.Scheduling.Selectors.{assignment_conflict, list_assignment_conflicts}
use brandy_manager_back.Scheduling.Checks.{validate_assignment_conflicts}
use brandy_manager_back.Scheduling.Assignments.{
  AssignmentData, AssignmentPatch, new_assignment, resolve_scope_from_payload,
  patch_assignment_fields, validate_if_active, deactivate_all, create_schedule_assignment,
  update_schedule_assignment, deactivate_schedule_assignment, archive_schedule, disable_schedule,
}
use brandy_manager_back.Scheduling.Requests.{Request, run}
use brandy_manager_back.Scheduling.Revision.{scope_only}
use brandy_manager_back.Scheduling.Rows.{IsFree, Step, Step-IsFree}
use brandy_manager_back.Scheduling.Frames.{
  metadata-frame, create_block-frame, update_block-frame, delete_block-frame,
  create_exception-frame, update_exception-frame, delete_exception-frame, reactivate-frame,
}

-- The window of an assignment is not empty.
abbrev pub IsCleanAssignment : ScheduleAssignment → Type 0
IsCleanAssignment a = validate_date_range a.starts_at a.ends_at ≡ true

-- Two active assignments at odds.
abbrev pub active_conflict : ScheduleAssignment → ScheduleAssignment → Bool
active_conflict a b = a.is_active && assignment_conflict a b

abbrev AssignmentStep : Db → Db → Type 0
AssignmentStep db db' = Step IsCleanAssignment active_conflict db.assignments db'.assignments

active_conflict_comm : (a b : ScheduleAssignment) → active_conflict a b ≡ active_conflict b a
active_conflict_comm a b = ground arith

active_conflict_self : (a : ScheduleAssignment) → active_conflict a a ≡ false
active_conflict_self a = ground arith

-- The check passed, or was not made of an inactive row: no active row of the table conflicts.
no_assignment_conflict :
    (a : ScheduleAssignment) (db : Db) {u : Unit {0}}
    → validate_if_active a db ≡ ok u
    → select (active_conflict a) db.assignments ≡ []
unfolding validate_if_active validate_assignment_conflicts list_assignment_conflicts
no_assignment_conflict a db h = select-eq-nil (active_conflict a) db.assignments λ b m.
    elim (Bool-cases a.is_active) [
      | inl on ↦ rw on (select-nil (assignment_conflict a) db.assignments (ground arith) b m)
      | inr off ↦ rw off
    ]

-- A new row is compared whether it is active or not.
checked_new :
    (a : ScheduleAssignment) (db : Db) {u : Unit {0}}
    → validate_assignment_conflicts a db ≡ ok u
    → validate_if_active a db ≡ ok u
unfolding validate_if_active
checked_new a db h = ground arith

-- An inactive row conflicts with none.
quiet :
    (a : ScheduleAssignment) (xs : List ScheduleAssignment)
    → a.is_active ≡ false
    → select (active_conflict a) xs ≡ []
quiet a xs off = select-eq-nil (active_conflict a) xs (λ b m. rw off)

module _ (env : Env) (company k e : ℕ) (db : Db) {s : Schedule} {db' : Db} where
  create_assignment-step :
      (p : AssignmentData)
      → create_schedule_assignment env company k e p db ≡ ok (s, db')
      → AssignmentStep db db'
  unfolding create_schedule_assignment assignment_clean
  create_assignment-step p h =
      elim (Result-cases (
        resolve_scope_from_payload env p.scope_new_id company p.scope_type p.site_id p.zone_id
          db)) [
            | inl (x, q) ↦ absurd (ground arith)
            | inr ((scope, db1), q) ↦ elim (Option-cases (get k db.schedules)) [
              | inl n ↦ absurd (ground arith)
              | inr (s0, l) ↦
                  let a = new_assignment p company s0.id scope.id in
                  let same =
                    scope_only env p.scope_new_id company p.scope_type p.site_id p.zone_id db q in
                  let db2 = record db1 { assignments = insert a db1.assignments } in
                  Step.added a (ground (arith, same)) (ground arith)
                    (ground (arith, same, no_assignment_conflict a db2, checked_new a db2))
            ]
          ]

  update_assignment-step :
      (j : ℕ) (p : AssignmentPatch)
      → update_schedule_assignment env k j e p db ≡ ok (s, db')
      → AssignmentStep db db'
  unfolding update_schedule_assignment assignment_clean
  update_assignment-step j p h = elim (Option-cases (get j db.assignments)) [
    | inl n ↦ absurd (ground arith)
    | inr (a0, l) ↦
        let a = patch_assignment_fields p a0 in
        Step.saved a (ground arith) (ground arith) (
          ground
            (arith, no_assignment_conflict a (record db { assignments = save a db.assignments })))
  ]

  deactivate_assignment-step :
      (j : ℕ) → deactivate_schedule_assignment env k j e db ≡ ok (s, db') → AssignmentStep db db'
  unfolding deactivate_schedule_assignment assignment_clean
  deactivate_assignment-step j h = elim (Option-cases (get j db.assignments)) [
    | inl n ↦ absurd (ground arith)
    | inr (a0, l) ↦
        let a = record a0 { is_active = false } in
        Step.saved a (ground arith) (ground arith) (quiet a db'.assignments refl)
  ]

  archive-step : archive_schedule env k e db ≡ ok (s, db') → AssignmentStep db db'
  unfolding archive_schedule deactivate_all
  archive-step h = elim (Option-cases (get k db.schedules)) [
    | inl n ↦ absurd (ground arith)
    | inr (s0, l) ↦
        Step.updated (λ a. a.schedule == s0.id && a.is_active) (λ a. record a { is_active = false })
          (ground arith) (λ a g. g) (λ a b. refl)
  ]

  disable-step : disable_schedule env k e db ≡ ok (s, db') → AssignmentStep db db'
  unfolding disable_schedule deactivate_all
  disable-step h = elim (Option-cases (get k db.schedules)) [
    | inl n ↦ absurd (ground arith)
    | inr (s0, l) ↦
        Step.updated (λ a. a.schedule == s0.id && a.is_active) (λ a. record a { is_active = false })
          (ground arith) (λ a g. g) (λ a b. refl)
  ]

  assignment-step : (r : Request) → run env company k e r db ≡ ok (s, db') → AssignmentStep db db'
  unfolding run
  assignment-step (Request.update_metadata p) h =
      Step.unchanged (metadata-frame env company k e db p h).2
  assignment-step (Request.create_block p) h =
      Step.unchanged (create_block-frame env company k e db p h).1
  assignment-step (Request.update_block b p) h =
      Step.unchanged (update_block-frame env company k e db b p h).1
  assignment-step (Request.delete_block b) h =
      Step.unchanged (delete_block-frame env company k e db b h).1
  assignment-step (Request.create_exception p) h =
      Step.unchanged (create_exception-frame env company k e db p h).1
  assignment-step (Request.update_exception b p) h =
      Step.unchanged (update_exception-frame env company k e db b p h).1
  assignment-step (Request.delete_exception b) h =
      Step.unchanged (delete_exception-frame env company k e db b h).1
  assignment-step (Request.create_assignment p) h = create_assignment-step p h
  assignment-step (Request.update_assignment b p) h = update_assignment-step b p h
  assignment-step (Request.deactivate_assignment b) h = deactivate_assignment-step b h
  assignment-step Request.archive h = archive-step h
  assignment-step Request.reactivate h = Step.unchanged (reactivate-frame env company k e db h).2
  assignment-step Request.disable h = disable-step h

-- Every accepted request keeps the assignments of the database free of conflicts: no window is empty,
-- and no two active assignments of one company to one scope at one priority have windows that meet.
pub run-IsFree_assignments :
    (env : Env) (company k e : ℕ) (r : Request) (db : Db) {s : Schedule} {db' : Db}
    → run env company k e r db ≡ ok (s, db')
    → IsFree IsCleanAssignment active_conflict db.assignments
    → IsFree IsCleanAssignment active_conflict db'.assignments
run-IsFree_assignments env company k e r db h =
    Step-IsFree IsCleanAssignment active_conflict active_conflict_comm active_conflict_self
      (assignment-step env company k e db r h)
