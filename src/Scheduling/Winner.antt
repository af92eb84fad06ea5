-- ===== src/Scheduling/Winner.antt =====
-- What `resolve_effective_schedule_for_zone` (apps/scheduling/selectors.py) answers, against a
-- description that sorts nothing.
use brandy_manager_back.Prelude.{
  ℕ, ◌≡◌, refl, sym, ap, subst, ◌⊎◌, inl, inr, Option, none, some, List, [], ◌∷◌, Bool, true, false,
  ◌&&◌, ◌==◌, Memᴰ, arith, select, first, sort_by, Bool-cases, mem-select, select-mem, mem-sort_by,
  sort_by-mem, sort_by-IsSorted, IsSorted, if◌then◌else◌,
}
use brandy_manager_back.Models.Organizations.{Zone}
use brandy_manager_back.Models.Scheduling.{ScheduleBlock, ScheduleException, ScheduleAssignment}
use brandy_manager_back.Store.{Db, Env}
use brandy_manager_back.Scheduling.Resolution.{
  Candidate, candidate_of, candidate_applies, keep_candidate, collect_candidates, queried_before,
  ranked_before, ordered_assignments_for_zone_at, current_exception, current_block, Resolved,
  by_exception, by_block, without_content, resolve_one, resolve_candidates,
  resolve_effective_schedule_for_zone,
}
use brandy_manager_back.Scheduling.Selectors.{assignment_applies_at}
use brandy_manager_back.Scheduling.Current.{
  HasException, HasBlock, IsCurrentException, IsCurrentBlock, some_exception, no_exception,
  some_block, no_block,
}
use brandy_manager_back.Scheduling.Ranks.{
  IsInForce, Outranks, applies-IsInForce, IsInForce-applies, Outranks-ranked,
}
use brandy_manager_back.Scheduling.Order.{ranked_before-IsKeyOrder}

module _ (env : Env) (db : Db) (zone : Zone) (at : ℕ) where
  -- A candidate: an active assignment of the zone's company to a scope that holds the zone, in its
  -- window at this instant, of a published schedule that is valid on the local date.
  pub record IsCandidate (c : Candidate) : Type 0 where
    pub row : ScheduleAssignment
    pub stored : Memᴰ row db.assignments
    pub company : row.company ≡ zone.company
    pub joins : candidate_of env db zone at row ≡ some c
    pub in_force : IsInForce env at c.assignment c.schedule

  -- It has an exception or a block that covers the instant.
  abbrev pub HasContent : Candidate → Type 0
  HasContent c = HasException env db at c.schedule ⊎ HasBlock env db at c.schedule

  -- It is a candidate, and none with content outranks it.
  pub record IsBest (c : Candidate) : Type 0 where
    pub candidate : IsCandidate c
    pub unbeaten : (d : Candidate) → IsCandidate d → HasContent d → ¬ Outranks d c

  abbrev pub IsAnswer : Resolved → Type 0
  IsAnswer (by_exception c x) = IsBest c × IsCurrentException env db at c.schedule x
  IsAnswer (by_block c b) =
      IsBest c × ¬ HasException env db at c.schedule × IsCurrentBlock env db at c.schedule b
  IsAnswer (without_content o) = (d : Candidate) → IsCandidate d → ¬ HasContent d

  -- One round of the loop keeps what it had, and at most its own candidate.
  keep-mem :
      (o : Option Candidate) (rest : List Candidate) {c : Candidate}
      → Memᴰ c (keep_candidate env at o rest)
      → Memᴰ c rest ⊎ ((o ≡ some c) × (candidate_applies env at c ≡ true))
  keep-mem none rest m = inl m
  keep-mem (some d) rest {c} m = go (candidate_applies env at d) refl m
    where
      go :
          (b : Bool)
          → candidate_applies env at d ≡ b
          → Memᴰ c (if b then d ∷ rest else rest)
          → Memᴰ c rest ⊎ ((some d ≡ some c) × (candidate_applies env at c ≡ true))
      go true e (Memᴰ.head q) =
          inr (ap some (sym q), subst (λ x. candidate_applies env at x ≡ true) (sym q) e)
      go true e (Memᴰ.tail t) = inl t
      go false e t = inl t

  mem-keep :
      (o : Option Candidate) (rest : List Candidate) {c : Candidate}
      → o ≡ some c
      → candidate_applies env at c ≡ true
      → Memᴰ c (keep_candidate env at o rest)
  mem-keep o rest {c} e h = rw (e, h) (Memᴰ.head refl)

  tail-keep :
      (o : Option Candidate) (rest : List Candidate) {c : Candidate}
      → Memᴰ c rest
      → Memᴰ c (keep_candidate env at o rest)
  tail-keep none rest m = m
  tail-keep (some d) rest {c} m = go (candidate_applies env at d)
    where
      go : (b : Bool) → Memᴰ c (if b then d ∷ rest else rest)
      go true = Memᴰ.tail m
      go false = m

  collect-mem :
      (as' : List ScheduleAssignment) {c : Candidate}
      → Memᴰ c (collect_candidates env db zone at as')
      → (a : ScheduleAssignment) × Memᴰ a as'
        × (candidate_of env db zone at a ≡ some c)
        × (candidate_applies env at c ≡ true)
  unfolding collect_candidates
  collect-mem [] m = elim m [ ]
  collect-mem (a ∷ as') m =
      elim (keep-mem (candidate_of env db zone at a) (collect_candidates env db zone at as') m) [
        | inl t ↦ let (b, mb, p, q) = collect-mem as' t in (b, Memᴰ.tail mb, p, q)
        | inr p ↦ (a, Memᴰ.head refl, p.0, p.1)
      ]

  mem-collect :
      (as' : List ScheduleAssignment) {a : ScheduleAssignment} {c : Candidate}
      → Memᴰ a as'
      → candidate_of env db zone at a ≡ some c
      → candidate_applies env at c ≡ true
      → Memᴰ c (collect_candidates env db zone at as')
  unfolding collect_candidates
  mem-collect [] m e h = elim m [ ]
  mem-collect (b ∷ as') {c = c} (Memᴰ.head q) e h =
      mem-keep (candidate_of env db zone at b) (collect_candidates env db zone at as')
        (subst (λ x. candidate_of env db zone at x ≡ some c) q e) h
  mem-collect (b ∷ as') (Memᴰ.tail t) e h =
      tail-keep (candidate_of env db zone at b) (collect_candidates env db zone at as')
        (mem-collect as' t e h)

  active_row :
      (a : ScheduleAssignment) {c : Candidate}
      → candidate_of env db zone at a ≡ some c
      → candidate_applies env at c ≡ true
      → a.is_active ≡ true
  unfolding candidate_of assignment_applies_at
  active_row a e h = ground arith

  -- The ordered list holds the candidates, and no others.
  pub mem-ordered :
      {c : Candidate} → Memᴰ c (ordered_assignments_for_zone_at env db zone at) → IsCandidate c
  unfolding ordered_assignments_for_zone_at
  mem-ordered {c} m =
      let active = λ (a : ScheduleAssignment). a.company == zone.company && a.is_active in
      let rows = select active db.assignments in
      let queried = sort_by queried_before rows in
      let (a, ma, e, h) =
        collect-mem queried
          (mem-sort_by ranked_before (collect_candidates env db zone at queried) m) in
      let (stored, test) = mem-select active db.assignments (mem-sort_by queried_before rows ma) in
      record {
        row = a;
        stored = stored;
        company = ground arith;
        joins = e;
        in_force = applies-IsInForce env at c h;
      }

  pub ordered-mem :
      {c : Candidate} → IsCandidate c → Memᴰ c (ordered_assignments_for_zone_at env db zone at)
  unfolding ordered_assignments_for_zone_at
  ordered-mem {c} i =
      let applies = IsInForce-applies env at c i.in_force in
      let active = λ (a : ScheduleAssignment). a.company == zone.company && a.is_active in
      let rows = select active db.assignments in
      let queried = sort_by queried_before rows in
      sort_by-mem ranked_before (collect_candidates env db zone at queried) (
        mem-collect queried
          (sort_by-mem queried_before rows (
            select-mem active db.assignments i.stored
              (ground (arith, active_row i.row i.joins applies))))
          i.joins applies)

  irrefl : (c : Candidate) → ranked_before c c ≡ false
  irrefl c = elim (Bool-cases (ranked_before c c)) [
    | inl h ↦ ranked_before-IsKeyOrder.asym c c h
    | inr h ↦ h
  ]

  unranked : (d c : Candidate) → ranked_before d c ≡ false → ¬ Outranks d c
  unranked d c n o = let h = Outranks-ranked d c o in cc

  sorted : IsSorted ranked_before (ordered_assignments_for_zone_at env db zone at)
  unfolding ordered_assignments_for_zone_at
  sorted = sort_by-IsSorted ranked_before ranked_before-IsKeyOrder (
      collect_candidates env db zone at (
        sort_by queried_before
          (select (λ a. a.company == zone.company && a.is_active) db.assignments)))

  -- The loop over a sorted list: what is skipped has no content, and what is chosen is ahead of the rest.
  walk :
      (fallback : Option Candidate) (cs : List Candidate)
      → IsSorted ranked_before cs
      → ((d : Candidate) → IsCandidate d → HasContent d → Memᴰ d cs)
      → ((d : Candidate) → Memᴰ d cs → IsCandidate d)
      → IsAnswer (resolve_candidates env db at fallback cs)
  unfolding resolve_candidates
  walk fallback [] s complete sound = λ d i h. elim (complete d i h) [ ]
  walk fallback (c ∷ cs) s complete sound =
      go (current_exception env db at c.schedule) refl (current_block env db at c.schedule) refl
        (λ quiet.
          walk fallback cs s.1
            (λ d i h. elim (complete d i h) [
              | Memᴰ.head q ↦ absurd (quiet (subst HasContent q h))
              | Memᴰ.tail t ↦ t
            ])
            (λ d m. sound d (Memᴰ.tail m)))
    where
      best : IsBest c
      best = record {
        candidate = sound c (Memᴰ.head refl);
        unbeaten = λ d i h. elim (complete d i h) [
          | Memᴰ.head q ↦ unranked d c (rw q (irrefl c))
          | Memᴰ.tail t ↦ unranked d c (s.0 d t)
        ];
      }

      go :
          (e : Option ScheduleException)
          → current_exception env db at c.schedule ≡ e
          → (b : Option ScheduleBlock) → current_block env db at c.schedule ≡ b
          → (¬ HasContent c → IsAnswer (resolve_candidates env db at fallback cs))
          → IsAnswer (resolve_one c e b (resolve_candidates env db at fallback cs))
      go (some e) p b q rest = (best, some_exception env db at c.schedule p)
      go none p (some b) q rest =
          (best, no_exception env db at c.schedule p, some_block env db at c.schedule q)
      go none p none q rest = rest (λ h. elim h [
        | inl x ↦ no_exception env db at c.schedule p x
        | inr y ↦ no_block env db at c.schedule q y
      ])

  -- The answer is right on every branch. By an exception: of a best candidate, an exception that covers
  -- the instant, which no other that does exceeds in priority, or follows at the same priority. By a
  -- block: of a best candidate, with no exception that covers the instant, such a block. Without content:
  -- no candidate has an exception or a block that covers the instant. A best candidate is one that no
  -- candidate with content outranks by lock, priority, narrower scope and newer creation.
  pub resolve-IsAnswer : IsAnswer (resolve_effective_schedule_for_zone env db zone at)
  unfolding resolve_effective_schedule_for_zone
  resolve-IsAnswer =
      let ordered = ordered_assignments_for_zone_at env db zone at in
      walk (first ordered) ordered sorted (λ d i h. ordered-mem i) (λ d m. mem-ordered m)
