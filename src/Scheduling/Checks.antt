-- ===== src/Scheduling/Checks.antt =====
-- apps/scheduling/services.py, lines 37 to 59 and 165 to 215: the checks that the operations share.
use brandy_manager_back.Prelude.{
  ℕ, ◌+◌, Option, none, some, List, [], ◌∷◌, map, not, ◌||◌, ◌==◌, is_none, if◌then◌else◌,
}
use brandy_manager_back.Result.{
  Result, ok, err, schedule_revision_conflict, schedule_conflict, schedule_content_unavailable,
}
use brandy_manager_back.Table.{save}
use brandy_manager_back.Models.Playlists.{Playlist, playlist_is_published}
use brandy_manager_back.Models.Scheduling.{
  Schedule, ScheduleBlock, ScheduleException, ScheduleAssignment, schedule_row, schedule_clean,
}
use brandy_manager_back.Store.{Db, Env, M, ◌>>◌, return, modify, raise_if, full_clean}
use brandy_manager_back.Scheduling.Selectors.{
  list_block_conflicts, list_exception_conflicts, list_assignment_conflicts,
  get_accessible_playlist_by_id, get_latest_published_snapshot,
}

unfoldable pub assert_expected_revision : Schedule → ℕ → M (Unit {0})
assert_expected_revision schedule expected =
    raise_if (not (schedule.revision == expected)) schedule_revision_conflict

-- `schedule` is the row as loaded in this transaction, with the fields of `update_fields` set anew,
-- so that writing those columns is writing the row. `save` runs `full_clean`.
unfoldable pub bump_revision : Env → Schedule → M Schedule
bump_revision env schedule = do
  let s = record schedule { revision = schedule.revision + 1 }
  full_clean (env.schedule_fields s) (schedule_clean s)
  modify (λ db. record db { schedules = save s db.schedules })
  return s

abbrev schedulable : Db → Option Playlist → Result Playlist
schedulable db none = err schedule_content_unavailable
schedulable db (some playlist) =
    if not (playlist_is_published playlist.status)
      || is_none (get_latest_published_snapshot db playlist.id)
    then err schedule_content_unavailable
    else ok playlist

unfoldable pub assert_playlist_schedulable : ℕ → Option ℕ → Db → Result Playlist
assert_playlist_schedulable company playlist_id db =
    schedulable db (get_accessible_playlist_by_id db company playlist_id)

-- `if conflicts: raise ScheduleConflict(...)`; the error lists the conflicting rows.
abbrev pub raise_conflicts : {A : Type 0} → (A → ℕ) → List A → Result (Unit {0})
raise_conflicts id [] = ok tt
raise_conflicts id (c ∷ cs) = err (schedule_conflict (map id (c ∷ cs)))

unfoldable pub validate_block_conflicts : ScheduleBlock → Db → Result (Unit {0})
validate_block_conflicts block db = raise_conflicts (λ b. b.id) (list_block_conflicts db block)

unfoldable pub validate_exception_conflicts : ScheduleException → Db → Result (Unit {0})
validate_exception_conflicts exception db =
    raise_conflicts (λ e. e.id) (list_exception_conflicts db exception)

unfoldable pub validate_assignment_conflicts : ScheduleAssignment → Db → Result (Unit {0})
validate_assignment_conflicts assignment db =
    raise_conflicts (λ a. a.id) (list_assignment_conflicts db assignment)
