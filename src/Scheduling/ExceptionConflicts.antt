-- ===== src/Scheduling/ExceptionConflicts.antt =====
-- The invariant behind `validate_exception_conflicts`, whatever requests are run.
use brandy_manager_back.Prelude.{ℕ, ◌≡◌, none, [], false, arith, inl, inr, select, Option-cases}
use brandy_manager_back.Result.{ok, Result-cases}
use brandy_manager_back.Table.{get, save, insert}
use brandy_manager_back.Models.Scheduling.{
  Schedule, ScheduleException, block_row, exception_row, assignment_row, schedule_row,
  exception_clean,
}
use brandy_manager_back.Models.Organizations.{scope_row}
use brandy_manager_back.Store.{Db, Env}
use brandy_manager_back.Scheduling.Selectors.{exception_conflict, list_exception_conflicts}
use brandy_manager_back.Scheduling.Checks.{validate_exception_conflicts}
use brandy_manager_back.Scheduling.Exceptions.{
  ExceptionData, ExceptionPatch, new_exception, exception_playlist, patch_exception_playlist,
  patch_action, patch_exception_fields, clear_silence_exception, create_schedule_exception,
  update_schedule_exception, delete_schedule_exception,
}
use brandy_manager_back.Scheduling.Requests.{Request, run}
use brandy_manager_back.Scheduling.Rows.{IsFree, Step, Step-IsFree}
use brandy_manager_back.Scheduling.Frames.{
  metadata-frame, create_block-frame, update_block-frame, delete_block-frame,
  create_assignment-frame, update_assignment-frame, deactivate_assignment-frame, archive-frame,
  reactivate-frame, disable-frame,
}

-- The row passes the validation of its model.
abbrev pub IsCleanException : ScheduleException → Type 0
IsCleanException b = exception_clean b ≡ none

abbrev ExceptionStep : Db → Db → Type 0
ExceptionStep db db' = Step IsCleanException exception_conflict db.exceptions db'.exceptions

exception_conflict_comm :
    (a b : ScheduleException) → exception_conflict a b ≡ exception_conflict b a
exception_conflict_comm a b = ground arith

exception_conflict_self : (a : ScheduleException) → exception_conflict a a ≡ false
exception_conflict_self a = ground arith

-- The check passed: no row of the table conflicts.
no_exception_conflict :
    (b : ScheduleException) (db : Db) {u : Unit {0}}
    → validate_exception_conflicts b db ≡ ok u
    → select (exception_conflict b) db.exceptions ≡ []
unfolding validate_exception_conflicts list_exception_conflicts
no_exception_conflict b db h = ground arith

module _ (env : Env) (company k e : ℕ) (db : Db) {s : Schedule} {db' : Db} where
  create_exception-step :
      (p : ExceptionData)
      → create_schedule_exception env company k e p db ≡ ok (s, db')
      → ExceptionStep db db'
  unfolding create_schedule_exception
  create_exception-step p h =
      elim (Result-cases (exception_playlist company p.action p.playlist_id db)) [
        | inl (x, q) ↦ absurd (ground arith)
        | inr (playlist, q) ↦ elim (Option-cases (get k db.schedules)) [
          | inl n ↦ absurd (ground arith)
          | inr (s0, l) ↦
              let b = new_exception p s0.id playlist in
              Step.added b (ground arith) (ground arith) (
                ground (
                  arith,
                  no_exception_conflict b (record db { exceptions = insert b db.exceptions }),
                ))
        ]
      ]

  update_exception-step :
      (j : ℕ) (p : ExceptionPatch)
      → update_schedule_exception env company k j e p db ≡ ok (s, db')
      → ExceptionStep db db'
  unfolding update_schedule_exception
  update_exception-step j p h = elim (Option-cases (get j db.exceptions)) [
    | inl n ↦ absurd (ground arith)
    | inr (b0, l) ↦
        elim (Result-cases
          (patch_exception_playlist company p.playlist_id (patch_action p.action b0) db)) [
            | inl (x, q) ↦ absurd (ground arith)
            | inr (b1, q) ↦
                let b = clear_silence_exception (patch_exception_fields p b1) in
                Step.saved b (ground arith) (ground arith) (
                  ground (
                    arith,
                    no_exception_conflict b (record db { exceptions = save b db.exceptions }),
                  ))
          ]
  ]

  delete_exception-step :
      (j : ℕ) → delete_schedule_exception env k j e db ≡ ok (s, db') → ExceptionStep db db'
  unfolding delete_schedule_exception
  delete_exception-step j h = elim (Option-cases (get j db.exceptions)) [
    | inl n ↦ absurd (ground arith)
    | inr (b0, l) ↦ Step.removed b0.id (ground arith)
  ]

  exception-step : (r : Request) → run env company k e r db ≡ ok (s, db') → ExceptionStep db db'
  unfolding run
  exception-step (Request.update_metadata p) h =
      Step.unchanged (metadata-frame env company k e db p h).1
  exception-step (Request.create_block p) h =
      Step.unchanged (create_block-frame env company k e db p h).0
  exception-step (Request.update_block b p) h =
      Step.unchanged (update_block-frame env company k e db b p h).0
  exception-step (Request.delete_block b) h =
      Step.unchanged (delete_block-frame env company k e db b h).0
  exception-step (Request.create_exception p) h = create_exception-step p h
  exception-step (Request.update_exception b p) h = update_exception-step b p h
  exception-step (Request.delete_exception b) h = delete_exception-step b h
  exception-step (Request.create_assignment p) h =
      Step.unchanged (create_assignment-frame env company k e db p h).1
  exception-step (Request.update_assignment b p) h =
      Step.unchanged (update_assignment-frame env company k e db b p h).1
  exception-step (Request.deactivate_assignment b) h =
      Step.unchanged (deactivate_assignment-frame env company k e db b h).1
  exception-step Request.archive h = Step.unchanged (archive-frame env company k e db h).1
  exception-step Request.reactivate h = Step.unchanged (reactivate-frame env company k e db h).1
  exception-step Request.disable h = Step.unchanged (disable-frame env company k e db h).1

-- Every accepted request keeps the exceptions of the database valid and free of conflicts: each row
-- passes its validation, and no two exceptions of one schedule, date and priority overlap in time.
pub run-IsFree_exceptions :
    (env : Env) (company k e : ℕ) (r : Request) (db : Db) {s : Schedule} {db' : Db}
    → run env company k e r db ≡ ok (s, db')
    → IsFree IsCleanException exception_conflict db.exceptions
    → IsFree IsCleanException exception_conflict db'.exceptions
run-IsFree_exceptions env company k e r db h =
    Step-IsFree IsCleanException exception_conflict exception_conflict_comm exception_conflict_self
      (exception-step env company k e db r h)
