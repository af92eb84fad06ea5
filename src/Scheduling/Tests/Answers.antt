-- ===== src/Scheduling/Tests/Answers.antt =====
-- Resolutions on the sample, and instances of the theorems about them.
use brandy_manager_back.Prelude.{◌≡◌, refl, some, arith, Memᴰ, ◌<ℤ◌}
use brandy_manager_back.Models.Scheduling.{schedule_row, block_row, exception_row, assignment_row}
use brandy_manager_back.Scheduling.Resolution.{
  current_block, current_exception, resolve_effective_schedule_for_zone,
}
use brandy_manager_back.Scheduling.Winner.{IsAnswer, resolve-IsAnswer}
use brandy_manager_back.Scheduling.Coverage.{current_block-unrivalled}
use brandy_manager_back.Scheduling.Tests.Sample.{
  env, zone, schedule, morning, background, holiday, db, blocks_IsFree,
}

-- On a Monday at 200 both blocks cover the instant, and the one of priority 1 is current.
resolve-IsAnswer_example :
    IsAnswer env db zone 1200 (resolve_effective_schedule_for_zone env db zone 1200)
resolve-IsAnswer_example = resolve-IsAnswer env db zone 1200

morning_current : current_block env db 1200 schedule ≡ some morning
unfolding current_block
morning_current = refl

current_block-unrivalled_example : background.priority <ℤ morning.priority
current_block-unrivalled_example =
    current_block-unrivalled env db 1200 schedule morning blocks_IsFree morning_current background
      (Memᴰ.tail (Memᴰ.head refl)) refl (λ e. omega arith)

holiday_current : current_exception env db 8200 schedule ≡ some holiday
unfolding current_exception
holiday_current = refl
