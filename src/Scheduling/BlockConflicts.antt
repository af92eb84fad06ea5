-- ===== src/Scheduling/BlockConflicts.antt =====
-- The invariant behind `validate_block_conflicts`, whatever requests are run.
use brandy_manager_back.Prelude.{ℕ, ◌≡◌, none, [], false, arith, inl, inr, select, Option-cases}
use brandy_manager_back.Result.{ok, Result-cases}
use brandy_manager_back.Table.{get, save, insert}
use brandy_manager_back.Models.Scheduling.{
  Schedule, ScheduleBlock, block_row, exception_row, assignment_row, schedule_row, block_clean,
}
use brandy_manager_back.Models.Organizations.{scope_row}
use brandy_manager_back.Store.{Db, Env}
use brandy_manager_back.Scheduling.Selectors.{block_conflict, list_block_conflicts}
use brandy_manager_back.Scheduling.Checks.{validate_block_conflicts}
use brandy_manager_back.Scheduling.Blocks.{
  BlockData, BlockPatch, new_block, block_playlist, patch_playlist, patch_content,
  patch_block_fields, clear_silence, create_schedule_block, update_schedule_block,
  delete_schedule_block,
}
use brandy_manager_back.Scheduling.Requests.{Request, run}
use brandy_manager_back.Scheduling.Rows.{IsFree, Step, Step-IsFree}
use brandy_manager_back.Scheduling.Frames.{
  metadata-frame, create_exception-frame, update_exception-frame, delete_exception-frame,
  create_assignment-frame, update_assignment-frame, deactivate_assignment-frame, archive-frame,
  reactivate-frame, disable-frame,
}

-- The row passes the validation of its model.
abbrev pub IsCleanBlock : ScheduleBlock → Type 0
IsCleanBlock b = block_clean b ≡ none

abbrev BlockStep : Db → Db → Type 0
BlockStep db db' = Step IsCleanBlock block_conflict db.blocks db'.blocks

block_conflict_comm : (a b : ScheduleBlock) → block_conflict a b ≡ block_conflict b a
block_conflict_comm a b = ground arith

block_conflict_self : (a : ScheduleBlock) → block_conflict a a ≡ false
block_conflict_self a = ground arith

-- The check passed: no row of the table conflicts.
no_block_conflict :
    (b : ScheduleBlock) (db : Db) {u : Unit {0}}
    → validate_block_conflicts b db ≡ ok u
    → select (block_conflict b) db.blocks ≡ []
unfolding validate_block_conflicts list_block_conflicts
no_block_conflict b db h = ground arith

module _ (env : Env) (company k e : ℕ) (db : Db) {s : Schedule} {db' : Db} where
  create_block-step :
      (p : BlockData) → create_schedule_block env company k e p db ≡ ok (s, db') → BlockStep db db'
  unfolding create_schedule_block
  create_block-step p h =
      elim (Result-cases (block_playlist company p.content_type p.playlist_id db)) [
        | inl (x, q) ↦ absurd (ground arith)
        | inr (playlist, q) ↦ elim (Option-cases (get k db.schedules)) [
          | inl n ↦ absurd (ground arith)
          | inr (s0, l) ↦
              let b = new_block p s0.id playlist in
              Step.added b (ground arith) (ground arith)
                (ground (arith, no_block_conflict b (record db { blocks = insert b db.blocks })))
        ]
      ]

  update_block-step :
      (j : ℕ) (p : BlockPatch)
      → update_schedule_block env company k j e p db ≡ ok (s, db')
      → BlockStep db db'
  unfolding update_schedule_block
  update_block-step j p h = elim (Option-cases (get j db.blocks)) [
    | inl n ↦ absurd (ground arith)
    | inr (b0, l) ↦
        elim (Result-cases
          (patch_playlist company p.playlist_id (patch_content p.content_type b0) db)) [
            | inl (x, q) ↦ absurd (ground arith)
            | inr (b1, q) ↦
                let b = clear_silence (patch_block_fields p b1) in
                Step.saved b (ground arith) (ground arith)
                  (ground (arith, no_block_conflict b (record db { blocks = save b db.blocks })))
          ]
  ]

  delete_block-step : (j : ℕ) → delete_schedule_block env k j e db ≡ ok (s, db') → BlockStep db db'
  unfolding delete_schedule_block
  delete_block-step j h = elim (Option-cases (get j db.blocks)) [
    | inl n ↦ absurd (ground arith)
    | inr (b0, l) ↦ Step.removed b0.id (ground arith)
  ]

  block-step : (r : Request) → run env company k e r db ≡ ok (s, db') → BlockStep db db'
  unfolding run
  block-step (Request.update_metadata p) h =
      Step.unchanged (metadata-frame env company k e db p h).0
  block-step (Request.create_block p) h = create_block-step p h
  block-step (Request.update_block b p) h = update_block-step b p h
  block-step (Request.delete_block b) h = delete_block-step b h
  block-step (Request.create_exception p) h =
      Step.unchanged (create_exception-frame env company k e db p h).0
  block-step (Request.update_exception b p) h =
      Step.unchanged (update_exception-frame env company k e db b p h).0
  block-step (Request.delete_exception b) h =
      Step.unchanged (delete_exception-frame env company k e db b h).0
  block-step (Request.create_assignment p) h =
      Step.unchanged (create_assignment-frame env company k e db p h).0
  block-step (Request.update_assignment b p) h =
      Step.unchanged (update_assignment-frame env company k e db b p h).0
  block-step (Request.deactivate_assignment b) h =
      Step.unchanged (deactivate_assignment-frame env company k e db b h).0
  block-step Request.archive h = Step.unchanged (archive-frame env company k e db h).0
  block-step Request.reactivate h = Step.unchanged (reactivate-frame env company k e db h).0
  block-step Request.disable h = Step.unchanged (disable-frame env company k e db h).0

-- Every accepted request keeps the blocks of the database valid and free of conflicts: each row passes
-- its validation, and no two blocks of one schedule, day of the week and priority overlap in time.
pub run-IsFree_blocks :
    (env : Env) (company k e : ℕ) (r : Request) (db : Db) {s : Schedule} {db' : Db}
    → run env company k e r db ≡ ok (s, db')
    → IsFree IsCleanBlock block_conflict db.blocks
    → IsFree IsCleanBlock block_conflict db'.blocks
run-IsFree_blocks env company k e r db h =
    Step-IsFree IsCleanBlock block_conflict block_conflict_comm block_conflict_self
      (block-step env company k e db r h)
