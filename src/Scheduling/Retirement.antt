-- ===== src/Scheduling/Retirement.antt =====
-- `archive_schedule` and `disable_schedule` (apps/scheduling/services.py) take a schedule off the air.
use brandy_manager_back.Prelude.{
  ℕ, ◌≡◌, sym, ◌∙◌, subst, List, some, true, false, arith, Memᴰ, Option-cases, inl, inr, ◌&&◌, ◌==◌,
}
use brandy_manager_back.Result.{ok}
use brandy_manager_back.Table.{get, pk-get, mem-update}
use brandy_manager_back.Models.Organizations.{Zone}
use brandy_manager_back.Models.Scheduling.{
  Schedule, ScheduleAssignment, schedule_row, assignment_row, schedule_is_published,
}
use brandy_manager_back.Store.{Db, Env}
use brandy_manager_back.Scheduling.Assignments.{archive_schedule, disable_schedule, deactivate_all}
use brandy_manager_back.Scheduling.Resolution.{
  Candidate, candidate_of, Resolved, by_exception, by_block, without_content,
  resolve_effective_schedule_for_zone,
}
use brandy_manager_back.Scheduling.Requests.{Request, run}
use brandy_manager_back.Scheduling.Revision.{accepted_revision}
use brandy_manager_back.Scheduling.Winner.{IsCandidate, IsAnswer, resolve-IsAnswer}

-- The schedule that an answer names with content, if it names one.
abbrev pub AirsSchedule : ℕ → Resolved → Type 0
AirsSchedule k (by_exception c e) = c.schedule.id ≡ k
AirsSchedule k (by_block c b) = c.schedule.id ≡ k
AirsSchedule k (without_content o) = ⊥

candidate_schedule :
    (env : Env) (db : Db) (zone : Zone) (at : ℕ) (a : ScheduleAssignment) {c : Candidate}
    → candidate_of env db zone at a ≡ some c
    → get a.schedule db.schedules ≡ some c.schedule
unfolding candidate_of
candidate_schedule env db zone at a e = ground arith

-- A candidate's schedule is stored under its own key, and published.
candidate_published :
    (env : Env) (db : Db) (zone : Zone) (at : ℕ) {c : Candidate} (k : ℕ) {s : Schedule}
    → IsCandidate env db zone at c
    → c.schedule.id ≡ k
    → get k db.schedules ≡ some s
    → schedule_is_published s.status ≡ true
candidate_published env db zone at {c} k i e g =
    let stored = candidate_schedule env db zone at i.row i.joins in
    let key = pk-get i.row.schedule db.schedules stored in
    let same = subst (λ j. get j db.schedules ≡ some c.schedule) (sym key ∙ e) stored in
    ground (arith, same, i.in_force.published)

-- While a schedule is stored unpublished, no zone resolves to content of it, at any instant.
pub unpublished_never_airs :
    (env : Env) (db : Db) (zone : Zone) (at k : ℕ) {s : Schedule}
    → get k db.schedules ≡ some s
    → schedule_is_published s.status ≡ false
    → ¬ AirsSchedule k (resolve_effective_schedule_for_zone env db zone at)
unpublished_never_airs env db zone at k {s} g off airs =
    go (resolve_effective_schedule_for_zone env db zone at) (resolve-IsAnswer env db zone at) airs
  where
    clash : {c : Candidate} → IsCandidate env db zone at c → c.schedule.id ≡ k → ⊥
    clash i e = let on = candidate_published env db zone at k i e g in cc

    go : (r : Resolved) → IsAnswer env db zone at r → AirsSchedule k r → ⊥
    go (by_exception c e) a q = clash a.0.candidate q
    go (by_block c b) a q = clash a.0.candidate q
    go (without_content o) a q = q

archived_status :
    (env : Env) (k e : ℕ) (db : Db) {s : Schedule} {db' : Db}
    → archive_schedule env k e db ≡ ok (s, db')
    → schedule_is_published s.status ≡ false
unfolding archive_schedule
archived_status env k e db h = ground arith

disabled_status :
    (env : Env) (k e : ℕ) (db : Db) {s : Schedule} {db' : Db}
    → disable_schedule env k e db ≡ ok (s, db')
    → schedule_is_published s.status ≡ false
unfolding disable_schedule
disabled_status env k e db h = ground arith

deactivated :
    (k : ℕ) (xs : List ScheduleAssignment) (a : ScheduleAssignment)
    → Memᴰ a (deactivate_all k xs)
    → a.schedule ≡ k
    → a.is_active ≡ false
unfolding deactivate_all
deactivated k xs a m e =
    let (x, mx, q) =
      mem-update (λ a. a.schedule == k && a.is_active) (λ a. record a { is_active = false }) xs m in
    ground arith

archived_assignments :
    (env : Env) (k e : ℕ) (db : Db) {s : Schedule} {db' : Db}
    → archive_schedule env k e db ≡ ok (s, db')
    → db'.assignments ≡ deactivate_all k db.assignments
unfolding archive_schedule
archived_assignments env k e db h = elim (Option-cases (get k db.schedules)) [
  | inl n ↦ absurd (ground arith)
  | inr (s0, l) ↦ ground (arith, pk-get k db.schedules l)
]

disabled_assignments :
    (env : Env) (k e : ℕ) (db : Db) {s : Schedule} {db' : Db}
    → disable_schedule env k e db ≡ ok (s, db')
    → db'.assignments ≡ deactivate_all k db.assignments
unfolding disable_schedule
disabled_assignments env k e db h = elim (Option-cases (get k db.schedules)) [
  | inl n ↦ absurd (ground arith)
  | inr (s0, l) ↦ ground (arith, pk-get k db.schedules l)
]

-- The requests that take a schedule off the air.
abbrev pub Retires : Request → Type 0
Retires Request.archive = Unit
Retires Request.disable = Unit
Retires _ = ⊥

retired :
    (env : Env) (company k e : ℕ) (r : Request) (db : Db) {s : Schedule} {db' : Db}
    → Retires r
    → run env company k e r db ≡ ok (s, db')
    → (schedule_is_published s.status ≡ false) × (db'.assignments ≡ deactivate_all k db.assignments)
unfolding run
retired env company k e Request.archive db w h =
    (archived_status env k e db h, archived_assignments env k e db h)
retired env company k e Request.disable db w h =
    (disabled_status env k e db h, disabled_assignments env k e db h)
retired env company k e _ db w h = absurd w

-- After a schedule has been archived or disabled, no zone resolves to content of it at any instant,
-- and every assignment of it is inactive.
pub retired_never_airs :
    (env : Env) (company k e : ℕ) (r : Request) (db : Db) {s : Schedule} {db' : Db}
    → Retires r
    → run env company k e r db ≡ ok (s, db')
    → ((zone : Zone) (at : ℕ)
        → ¬ AirsSchedule k (resolve_effective_schedule_for_zone env db' zone at))
      × ((a : ScheduleAssignment) → Memᴰ a db'.assignments → a.schedule ≡ k → a.is_active ≡ false)
retired_never_airs env company k e r db {s} {db'} w h =
    let (off, rows) = retired env company k e r db w h in
    (
      λ zone at.
          unpublished_never_airs env db' zone at k (accepted_revision env company k e r db h).1 off,
      λ a m q. deactivated k db.assignments a (subst (Memᴰ a) rows m) q,
    )
