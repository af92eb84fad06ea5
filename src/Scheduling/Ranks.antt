-- ===== src/Scheduling/Ranks.antt =====
-- Which assignments are in force, and which goes ahead (apps/scheduling/selectors.py,
-- `ordered_assignments_for_zone_at`), described without the queries and the sort.
use brandy_manager_back.Prelude.{
  ℕ, ◌+◌, ◌≤◌, ◌<◌, ◌≡◌, ◌⊎◌, ◌<ℤ◌, refl, Option, none, some, true, false, arith,
}
use brandy_manager_back.Models.Organizations.{ScopeType}
use brandy_manager_back.Models.Scheduling.{Schedule, ScheduleAssignment, schedule_is_published}
use brandy_manager_back.Store.{Env}
use brandy_manager_back.Scheduling.Selectors.{
  none_or_le, none_or_gt, none_or_ge, assignment_applies_at, schedule_applies_on_date,
}
use brandy_manager_back.Scheduling.Resolution.{
  Candidate, candidate_applies, ranked_before, scope_specificity,
}

-- The instant is in the window of an active assignment, and the schedule is published and valid on the
-- local date. Bounds that are missing hold always.
pub record IsInForce (env : Env) (at : ℕ) (a : ScheduleAssignment) (s : Schedule) : Type 0 where
  pub active : a.is_active ≡ true
  pub starts : (t : ℕ) → a.starts_at ≡ some t → t ≤ at
  pub ends : (t : ℕ) → a.ends_at ≡ some t → at < t
  pub published : schedule_is_published s.status ≡ true
  pub from : (d : ℕ) → s.valid_from ≡ some d → d ≤ env.local_date s.timezone at
  pub until : (d : ℕ) → s.valid_until ≡ some d → env.local_date s.timezone at ≤ d

le-holds : (o : Option ℕ) (t : ℕ) → ((x : ℕ) → o ≡ some x → x ≤ t) → none_or_le o t ≡ true
le-holds none t h = refl
le-holds (some x) t h = ground (arith, h x refl)

gt-holds : (o : Option ℕ) (t : ℕ) → ((x : ℕ) → o ≡ some x → t < x) → none_or_gt o t ≡ true
gt-holds none t h = refl
gt-holds (some x) t h = ground (arith, h x refl)

ge-holds : (o : Option ℕ) (t : ℕ) → ((x : ℕ) → o ≡ some x → t ≤ x) → none_or_ge o t ≡ true
ge-holds none t h = refl
ge-holds (some x) t h = ground (arith, h x refl)

pub applies-IsInForce :
    (env : Env) (at : ℕ) (c : Candidate)
    → candidate_applies env at c ≡ true
    → IsInForce env at c.assignment c.schedule
unfolding assignment_applies_at schedule_applies_on_date
applies-IsInForce env at c h = record {
  active = ground arith;
  starts = λ t e. ground arith;
  ends = λ t e. ground arith;
  published = ground arith;
  from = λ d e. ground arith;
  until = λ d e. ground arith;
}

pub IsInForce-applies :
    (env : Env) (at : ℕ) (c : Candidate)
    → IsInForce env at c.assignment c.schedule
    → candidate_applies env at c ≡ true
unfolding assignment_applies_at schedule_applies_on_date
IsInForce-applies env at c f =
    let day = env.local_date c.schedule.timezone at in
    ground (
      arith,
      f.active,
      le-holds c.assignment.starts_at at f.starts,
      gt-holds c.assignment.ends_at at f.ends,
      f.published,
      le-holds c.schedule.valid_from day f.from,
      ge-holds c.schedule.valid_until day f.until,
    )

-- A narrower scope has a higher number.
abbrev pub narrowness : ScopeType → ℕ
narrowness ScopeType.company = 0
narrowness ScopeType.organizational_unit = 1
narrowness ScopeType.resource_group = 2
narrowness ScopeType.site = 3
narrowness ScopeType.zone = 4

-- A lock outranks, then the priority, then the narrower scope, then the newer assignment.
abbrev pub Outranks : Candidate → Candidate → Type 0
Outranks c d =
    (c.assignment.is_locked ≡ true) × (d.assignment.is_locked ≡ false)
    ⊎ (c.assignment.is_locked ≡ d.assignment.is_locked)
      × ((d.assignment.priority <ℤ c.assignment.priority)
          ⊎ (c.assignment.priority ≡ d.assignment.priority)
            × ((narrowness d.scope_type < narrowness c.scope_type)
                ⊎ (narrowness c.scope_type ≡ narrowness d.scope_type)
                  × (d.assignment.created_at < c.assignment.created_at)))

specificity-narrowness : (t : ScopeType) → scope_specificity t ≡ narrowness t + 1
unfolding scope_specificity
specificity-narrowness ScopeType.company = refl
specificity-narrowness ScopeType.organizational_unit = refl
specificity-narrowness ScopeType.resource_group = refl
specificity-narrowness ScopeType.site = refl
specificity-narrowness ScopeType.zone = refl

pub Outranks-ranked : (c d : Candidate) → Outranks c d → ranked_before c d ≡ true
unfolding ranked_before
Outranks-ranked c d o =
    ground (arith, specificity-narrowness c.scope_type, specificity-narrowness d.scope_type)
