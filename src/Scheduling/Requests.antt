-- ===== src/Scheduling/Requests.antt =====
-- The requests that change a schedule, as one data type: each runs an operation of
-- apps/scheduling/services.py on the schedule that its URL names.
use brandy_manager_back.Prelude.{ℕ}
use brandy_manager_back.Models.Scheduling.{Schedule}
use brandy_manager_back.Store.{Env, M}
use brandy_manager_back.Scheduling.Blocks.{
  MetadataPatch, BlockData, BlockPatch, update_schedule_metadata, create_schedule_block,
  update_schedule_block, delete_schedule_block,
}
use brandy_manager_back.Scheduling.Exceptions.{
  ExceptionData, ExceptionPatch, create_schedule_exception, update_schedule_exception,
  delete_schedule_exception,
}
use brandy_manager_back.Scheduling.Assignments.{
  AssignmentData, AssignmentPatch, create_schedule_assignment, update_schedule_assignment,
  deactivate_schedule_assignment, archive_schedule, reactivate_schedule, disable_schedule,
}

pub data Request : Type 0 where
  update_metadata : MetadataPatch → Request
  create_block : BlockData → Request
  update_block : ℕ → BlockPatch → Request
  delete_block : ℕ → Request
  create_exception : ExceptionData → Request
  update_exception : ℕ → ExceptionPatch → Request
  delete_exception : ℕ → Request
  create_assignment : AssignmentData → Request
  update_assignment : ℕ → AssignmentPatch → Request
  deactivate_assignment : ℕ → Request
  archive reactivate disable : Request

unfoldable pub run : Env → ℕ → ℕ → ℕ → Request → M Schedule
run env company schedule revision (Request.update_metadata patch) =
    update_schedule_metadata env schedule revision patch
run env company schedule revision (Request.create_block payload) =
    create_schedule_block env company schedule revision payload
run env company schedule revision (Request.update_block k patch) =
    update_schedule_block env company schedule k revision patch
run env company schedule revision (Request.delete_block k) =
    delete_schedule_block env schedule k revision
run env company schedule revision (Request.create_exception payload) =
    create_schedule_exception env company schedule revision payload
run env company schedule revision (Request.update_exception k patch) =
    update_schedule_exception env company schedule k revision patch
run env company schedule revision (Request.delete_exception k) =
    delete_schedule_exception env schedule k revision
run env company schedule revision (Request.create_assignment payload) =
    create_schedule_assignment env company schedule revision payload
run env company schedule revision (Request.update_assignment k patch) =
    update_schedule_assignment env schedule k revision patch
run env company schedule revision (Request.deactivate_assignment k) =
    deactivate_schedule_assignment env schedule k revision
run env company schedule revision Request.archive = archive_schedule env schedule revision
run env company schedule revision Request.reactivate = reactivate_schedule env schedule revision
run env company schedule revision Request.disable = disable_schedule env schedule revision
