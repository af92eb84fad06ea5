-- ===== src/Scheduling/Coverage.antt =====
-- Rows against instants: what the interval tests of apps/scheduling/selectors.py mean.
use brandy_manager_back.Prelude.{
  ℕ, ◌≤◌, ◌<◌, ◌≡◌, ◌≢◌, ◌↔◌, Option, none, some, Bool, true, ◌&&◌, Memᴰ, arith, select, sort_by,
  mem-select, select-mem, mem-sort_by, first-sort_by, mem-first, ◌<ℤ◌,
}
use Prim.Native.Nat.{max}
use brandy_manager_back.Models.Scheduling.{Schedule, ScheduleBlock, validate_date_range, block_row}
use brandy_manager_back.Store.{Db, Env}
use brandy_manager_back.Scheduling.Selectors.{
  time_ranges_overlap, starts_before, ends_after, none_or_le, none_or_gt, block_conflict,
}
use brandy_manager_back.Scheduling.Resolution.{block_before, block_covers, weekday, current_block}
use brandy_manager_back.Scheduling.Order.{block_before-IsKeyOrder}
use brandy_manager_back.Scheduling.Rows.{IsFree}
use brandy_manager_back.Scheduling.BlockConflicts.{IsCleanBlock}

-- The time t lies in the range [s, e).
abbrev InRange : ℕ → ℕ → ℕ → Type 0
InRange s e t = (s ≤ t) × (t < e)

-- For ranges that are not empty, the test for an overlap is true exactly when they share a time.
pub time_ranges_overlap_iff :
    (s e s' e' : ℕ)
    → s < e
    → s' < e'
    → (time_ranges_overlap s e s' e' ≡ true) ↔ ((t : ℕ) × InRange s e t × InRange s' e' t)
time_ranges_overlap_iff s e s' e' h h' =
    (λ o. (max s s', ground arith, ground arith), λ (t, i, i'). ground arith)

-- The instant t lies in a window whose ends may be missing: [s, e), as `assignment_applies_at` reads it.
abbrev InWindow : Option ℕ → Option ℕ → ℕ → Type 0
InWindow s e t = (none_or_le s t ≡ true) × (none_or_gt e t ≡ true)

abbrev start_of : Option ℕ → ℕ
start_of none = 0
start_of (some s) = s

-- For windows that are not empty, with ends that may be missing, the test of
-- `list_assignment_conflicts` is true exactly when they share an instant; an end at instant 0 is
-- excluded, as no window that ends there holds an instant.
pub windows_meet_iff :
    (s e s' e' : Option ℕ)
    → validate_date_range s e ≡ true
    → validate_date_range s' e' ≡ true
    → e ≢ some 0
    → e' ≢ some 0
    → ((starts_before s' e && ends_after e' s) ≡ true)
      ↔ ((t : ℕ) × InWindow s e t × InWindow s' e' t)
windows_meet_iff s e s' e' h h' z z' =
    (λ o. (max (start_of s) (start_of s'), ground arith, ground arith), λ (t, i, i'). ground arith)

module _ (env : Env) (db : Db) (at : ℕ) (s : Schedule) where
  abbrev covers_now : ScheduleBlock → Bool
  covers_now =
      block_covers s.id (weekday (env.local_date s.timezone at)) (env.local_time s.timezone at)

  -- The block that is current covers the instant in the schedule's time zone, and no block of the
  -- schedule that covers it has a higher priority.
  pub current_block-best :
      (b : ScheduleBlock)
      → current_block env db at s ≡ some b
      → Memᴰ b db.blocks
        × (covers_now b ≡ true)
        × ((c : ScheduleBlock)
            → Memᴰ c db.blocks
            → covers_now c ≡ true
            → ¬ (b.priority <ℤ c.priority))
  unfolding current_block
  current_block-best b e =
      let rows = select covers_now db.blocks in
      let (stored, cover) =
        mem-select covers_now db.blocks
          (mem-sort_by block_before rows (mem-first (sort_by block_before rows) e)) in
      (
        stored,
        cover,
        λ c m h lt. ground (
          arith,
          first-sort_by block_before block_before-IsKeyOrder rows e c
              (select-mem covers_now db.blocks m h),
        ),
      )

  -- In a database without conflicts the current block is the only one that covers the instant at its
  -- priority: every other covering block of the schedule has a strictly lower one.
  pub current_block-unrivalled :
      (b : ScheduleBlock)
      → IsFree IsCleanBlock block_conflict db.blocks
      → current_block env db at s ≡ some b
      → (c : ScheduleBlock) → Memᴰ c db.blocks
      → covers_now c ≡ true
      → c.id ≢ b.id
      → c.priority <ℤ b.priority
  current_block-unrivalled b free e c m h ne =
      let best = current_block-best b e in
      ground (arith, best.1, best.2 c m h, free.pairs b c best.0 m)
