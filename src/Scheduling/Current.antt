-- ===== src/Scheduling/Current.antt =====
-- What is on in a schedule at an instant: what `current_exception` and `current_block` of the loop of
-- `resolve_effective_schedule_for_zone` (apps/scheduling/selectors.py) find, described without a query.
use brandy_manager_back.Prelude.{
  ℕ, ℤ, ◌≤◌, ◌<◌, ◌≡◌, ◌⊎◌, ◌<ℤ◌, none, some, List, [], ◌∷◌, Bool, true, false, Memᴰ, arith, select,
  first, sort_by, mem-select, select-mem, mem-sort_by, sort_by-mem, first-sort_by, mem-first,
  IsKeyOrder,
}
use brandy_manager_back.Models.Scheduling.{Schedule, ScheduleBlock, ScheduleException}
use brandy_manager_back.Store.{Db, Env}
use brandy_manager_back.Scheduling.Resolution.{
  exception_before, block_before, exception_covers, block_covers, weekday, current_exception,
  current_block,
}
use brandy_manager_back.Scheduling.Order.{block_before-IsKeyOrder, exception_before-IsKeyOrder}

module _ {A : Type 0} (before : A → A → Bool) (order : IsKeyOrder before) (p : A → Bool)
    (rows : List A) where
  -- The first of the sorted rows that pass a test, if it is there, passes it, and no other goes before.
  picked :
      {x : A}
      → first (sort_by before (select p rows)) ≡ some x
      → Memᴰ x rows × (p x ≡ true) × ((y : A) → Memᴰ y rows → p y ≡ true → before y x ≡ false)
  picked {x} e =
      let (m, h) =
        mem-select p rows
          (mem-sort_by before (select p rows) (mem-first (sort_by before (select p rows)) e)) in
      (m, h, λ y my hy. first-sort_by before order (select p rows) e y (select-mem p rows my hy))

  nothing : (xs : List A) {y : A} → first xs ≡ none → Memᴰ y xs → ⊥
  nothing [] e m = elim m [ ]
  nothing (x ∷ xs) e m = cc

  -- If it is not there, no row passes.
  unpicked : first (sort_by before (select p rows)) ≡ none → (y : A) → Memᴰ y rows → p y ≡ true → ⊥
  unpicked e y m h =
      nothing (sort_by before (select p rows)) e
        (sort_by-mem before (select p rows) (select-mem p rows m h))

-- Of two rows with a priority and an instant of creation: the second comes ahead of the first.
abbrev pub IsAhead : ℤ → ℕ → ℤ → ℕ → Type 0
IsAhead p c q d = (p <ℤ q) ⊎ ((p ≡ q) × (c < d))

module _ (env : Env) (db : Db) (at : ℕ) (s : Schedule) where
  -- The exception is of the schedule, on the local date, and the local time is in its range.
  abbrev pub CoversException : ScheduleException → Type 0
  CoversException x =
      (x.schedule ≡ s.id)
      × (x.date ≡ env.local_date s.timezone at)
      × (x.start_time ≤ env.local_time s.timezone at)
      × (env.local_time s.timezone at < x.end_time)

  -- The same for a block, on the local day of the week.
  abbrev pub CoversBlock : ScheduleBlock → Type 0
  CoversBlock b =
      (b.schedule ≡ s.id)
      × (b.day_of_week ≡ weekday (env.local_date s.timezone at))
      × (b.start_time ≤ env.local_time s.timezone at)
      × (env.local_time s.timezone at < b.end_time)

  -- It covers the instant, and none that does has a higher priority, or is newer at the same priority.
  pub record IsCurrentException (x : ScheduleException) : Type 0 where
    pub stored : Memᴰ x db.exceptions
    pub covers : CoversException x
    pub first_of :
        (y : ScheduleException)
        → Memᴰ y db.exceptions
        → CoversException y
        → ¬ IsAhead x.priority x.created_at y.priority y.created_at

  pub record IsCurrentBlock (b : ScheduleBlock) : Type 0 where
    pub stored : Memᴰ b db.blocks
    pub covers : CoversBlock b
    pub first_of :
        (c : ScheduleBlock)
        → Memᴰ c db.blocks
        → CoversBlock c
        → ¬ IsAhead b.priority b.created_at c.priority c.created_at

  abbrev pub HasException : Type 0
  HasException = (x : ScheduleException) × Memᴰ x db.exceptions × CoversException x

  abbrev pub HasBlock : Type 0
  HasBlock = (b : ScheduleBlock) × Memᴰ b db.blocks × CoversBlock b

  abbrev covers_exception : ScheduleException → Bool
  covers_exception =
      exception_covers s.id (env.local_date s.timezone at) (env.local_time s.timezone at)

  abbrev covers_block : ScheduleBlock → Bool
  covers_block =
      block_covers s.id (weekday (env.local_date s.timezone at)) (env.local_time s.timezone at)

  pub some_exception :
      {x : ScheduleException} → current_exception env db at s ≡ some x → IsCurrentException x
  unfolding current_exception
  some_exception {x} e =
      let (m, h, best) =
        picked exception_before exception_before-IsKeyOrder covers_exception db.exceptions e in
      record {
        stored = m;
        covers = ground arith;
        first_of = λ y my cy ahead. ground (arith, best y my (ground arith));
      }

  pub no_exception : current_exception env db at s ≡ none → ¬ HasException
  unfolding current_exception
  no_exception e (x, m, c) =
      unpicked exception_before exception_before-IsKeyOrder covers_exception db.exceptions e x m
        (ground arith)

  pub some_block : {b : ScheduleBlock} → current_block env db at s ≡ some b → IsCurrentBlock b
  unfolding current_block
  some_block {b} e =
      let (m, h, best) = picked block_before block_before-IsKeyOrder covers_block db.blocks e in
      record {
        stored = m;
        covers = ground arith;
        first_of = λ y my cy ahead. ground (arith, best y my (ground arith));
      }

  pub no_block : current_block env db at s ≡ none → ¬ HasBlock
  unfolding current_block
  no_block e (b, m, c) =
      unpicked block_before block_before-IsKeyOrder covers_block db.blocks e b m (ground arith)
