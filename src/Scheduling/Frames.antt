-- ===== src/Scheduling/Frames.antt =====
-- What each request leaves alone: an operation on one kind of row writes no row of another kind.
use brandy_manager_back.Prelude.{ℕ, ◌≡◌, arith, inl, inr}
use brandy_manager_back.Result.{ok, Result-cases}
use brandy_manager_back.Models.Scheduling.{
  Schedule, block_row, exception_row, assignment_row, schedule_row,
}
use brandy_manager_back.Models.Organizations.{scope_row}
use brandy_manager_back.Store.{Db, Env}
use brandy_manager_back.Scheduling.Blocks.{
  MetadataPatch, BlockData, BlockPatch, update_schedule_metadata, create_schedule_block,
  update_schedule_block, delete_schedule_block,
}
use brandy_manager_back.Scheduling.Exceptions.{
  ExceptionData, ExceptionPatch, create_schedule_exception, update_schedule_exception,
  delete_schedule_exception,
}
use brandy_manager_back.Scheduling.Assignments.{
  AssignmentData, AssignmentPatch, resolve_scope_from_payload, create_schedule_assignment,
  update_schedule_assignment, deactivate_schedule_assignment, archive_schedule, reactivate_schedule,
  disable_schedule,
}
use brandy_manager_back.Scheduling.Revision.{scope_only}

module _ (env : Env) (company k e : ℕ) (db : Db) {s : Schedule} {db' : Db} where
  pub metadata-frame :
      (p : MetadataPatch)
      → update_schedule_metadata env k e p db ≡ ok (s, db')
      → (db'.blocks ≡ db.blocks)
        × (db'.exceptions ≡ db.exceptions)
        × (db'.assignments ≡ db.assignments)
  unfolding update_schedule_metadata
  metadata-frame p h = ground arith

  pub create_block-frame :
      (p : BlockData)
      → create_schedule_block env company k e p db ≡ ok (s, db')
      → (db'.exceptions ≡ db.exceptions) × (db'.assignments ≡ db.assignments)
  unfolding create_schedule_block
  create_block-frame p h = ground arith

  pub update_block-frame :
      (b : ℕ) (p : BlockPatch)
      → update_schedule_block env company k b e p db ≡ ok (s, db')
      → (db'.exceptions ≡ db.exceptions) × (db'.assignments ≡ db.assignments)
  unfolding update_schedule_block
  update_block-frame b p h = ground arith

  pub delete_block-frame :
      (b : ℕ)
      → delete_schedule_block env k b e db ≡ ok (s, db')
      → (db'.exceptions ≡ db.exceptions) × (db'.assignments ≡ db.assignments)
  unfolding delete_schedule_block
  delete_block-frame b h = ground arith

  pub create_exception-frame :
      (p : ExceptionData)
      → create_schedule_exception env company k e p db ≡ ok (s, db')
      → (db'.blocks ≡ db.blocks) × (db'.assignments ≡ db.assignments)
  unfolding create_schedule_exception
  create_exception-frame p h = ground arith

  pub update_exception-frame :
      (b : ℕ) (p : ExceptionPatch)
      → update_schedule_exception env company k b e p db ≡ ok (s, db')
      → (db'.blocks ≡ db.blocks) × (db'.assignments ≡ db.assignments)
  unfolding update_schedule_exception
  update_exception-frame b p h = ground arith

  pub delete_exception-frame :
      (b : ℕ)
      → delete_schedule_exception env k b e db ≡ ok (s, db')
      → (db'.blocks ≡ db.blocks) × (db'.assignments ≡ db.assignments)
  unfolding delete_schedule_exception
  delete_exception-frame b h = ground arith

  pub create_assignment-frame :
      (p : AssignmentData)
      → create_schedule_assignment env company k e p db ≡ ok (s, db')
      → (db'.blocks ≡ db.blocks) × (db'.exceptions ≡ db.exceptions)
  unfolding create_schedule_assignment
  create_assignment-frame p h =
      elim (Result-cases (
        resolve_scope_from_payload env p.scope_new_id company p.scope_type p.site_id p.zone_id
          db)) [
            | inl (x, q) ↦ absurd (ground arith)
            | inr ((scope, db1), q) ↦
                ground (
                  arith,
                  scope_only env p.scope_new_id company p.scope_type p.site_id p.zone_id db q,
                )
          ]

  pub update_assignment-frame :
      (b : ℕ) (p : AssignmentPatch)
      → update_schedule_assignment env k b e p db ≡ ok (s, db')
      → (db'.blocks ≡ db.blocks) × (db'.exceptions ≡ db.exceptions)
  unfolding update_schedule_assignment
  update_assignment-frame b p h = ground arith

  pub deactivate_assignment-frame :
      (b : ℕ)
      → deactivate_schedule_assignment env k b e db ≡ ok (s, db')
      → (db'.blocks ≡ db.blocks) × (db'.exceptions ≡ db.exceptions)
  unfolding deactivate_schedule_assignment
  deactivate_assignment-frame b h = ground arith

  pub archive-frame :
      archive_schedule env k e db ≡ ok (s, db')
      → (db'.blocks ≡ db.blocks) × (db'.exceptions ≡ db.exceptions)
  unfolding archive_schedule
  archive-frame h = ground arith

  pub reactivate-frame :
      reactivate_schedule env k e db ≡ ok (s, db')
      → (db'.blocks ≡ db.blocks)
        × (db'.exceptions ≡ db.exceptions)
        × (db'.assignments ≡ db.assignments)
  unfolding reactivate_schedule
  reactivate-frame h = ground arith

  pub disable-frame :
      disable_schedule env k e db ≡ ok (s, db')
      → (db'.blocks ≡ db.blocks) × (db'.exceptions ≡ db.exceptions)
  unfolding disable_schedule
  disable-frame h = ground arith
