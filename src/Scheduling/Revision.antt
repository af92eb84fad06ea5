-- ===== src/Scheduling/Revision.antt =====
-- The optimistic lock of apps/scheduling/services.py: `assert_expected_revision` and `bump_revision`.
use brandy_manager_back.Prelude.{
  ℕ, ◌+◌, ◌≡◌, ◌≢◌, refl, sym, ◌∙◌, subst, Option, none, some, arith, inl, inr,
}
use brandy_manager_back.Result.{ok, Result-cases}
use brandy_manager_back.Table.{get, save, pk-get, get-save}
use brandy_manager_back.Models.Organizations.{ScopeType, ResourceScope}
use brandy_manager_back.Models.Scheduling.{Schedule, schedule_row}
use brandy_manager_back.Store.{Db, Env}
use brandy_manager_back.Scheduling.Blocks.{
  MetadataPatch, BlockData, BlockPatch, update_schedule_metadata, create_schedule_block,
  update_schedule_block, delete_schedule_block,
}
use brandy_manager_back.Scheduling.Exceptions.{
  ExceptionData, ExceptionPatch, create_schedule_exception, update_schedule_exception,
  delete_schedule_exception,
}
use brandy_manager_back.Scheduling.Assignments.{
  AssignmentData, AssignmentPatch, create_schedule_assignment, update_schedule_assignment,
  resolve_scope_from_payload, deactivate_schedule_assignment, archive_schedule, reactivate_schedule,
  disable_schedule,
}
use brandy_manager_back.Scheduling.Requests.{Request, run}

-- What every accepted request does to the schedule's row: it was at the expected revision, and the
-- row that is written, under the same key, is one revision further.
pub record Bumps (k e : ℕ) (db : Db) (s : Schedule) (db' : Db) : Type 0 where
  pub before : Schedule
  pub loaded : get k db.schedules ≡ some before
  pub expected : before.revision ≡ e
  pub bumped : s.revision ≡ e + 1
  pub same_key : s.id ≡ before.id
  pub written : db'.schedules ≡ save s db.schedules

-- Creating a scope writes no other table.
pub scope_only :
    (env : Env) (n c : ℕ) (t : ScopeType) (site_id zone_id : Option ℕ) (db : Db)
    {scope : ResourceScope} {db' : Db}
    → resolve_scope_from_payload env n c t site_id zone_id db ≡ ok (scope, db')
    → db' ≡ record db { scopes = db'.scopes }
unfolding resolve_scope_from_payload
scope_only env n c ScopeType.company a b db h = ground arith
scope_only env n c ScopeType.site none b db h = ground arith
scope_only env n c ScopeType.site (some k) b db h = ground arith
scope_only env n c ScopeType.zone a none db h = ground arith
scope_only env n c ScopeType.zone a (some k) db h = ground arith
scope_only env n c _ a b db h = ground arith

abbrev Facts : Option Schedule → ℕ → Db → Schedule → Db → Type 0
Facts none e db s db' = ⊥
Facts (some s0) e db s db' =
    (s0.revision ≡ e)
    × (s.revision ≡ e + 1)
    × (s.id ≡ s0.id)
    × (db'.schedules ≡ save s db.schedules)

Facts-Bumps :
    {k e : ℕ} {db : Db} {s : Schedule} {db' : Db}
    → Facts (get k db.schedules) e db s db'
    → Bumps k e db s db'
Facts-Bumps {k} {e} {db} {s} {db'} facts = go (get k db.schedules) refl facts
  where
    go : (o : Option Schedule) → get k db.schedules ≡ o → Facts o e db s db' → Bumps k e db s db'
    go none p f = absurd f
    go (some s0) p f = record {
      before = s0;
      loaded = p;
      expected = f.0;
      bumped = f.1;
      same_key = f.2;
      written = f.3;
    }

abbrev Written : ℕ → ℕ → Db → Schedule → Db → Type 0
Written k e db s db' = Facts (get k db.schedules) e db s db'

module _ (env : Env) (company k e : ℕ) (db : Db) {s : Schedule} {db' : Db} where
  metadata-facts :
      (p : MetadataPatch)
      → update_schedule_metadata env k e p db ≡ ok (s, db')
      → Written k e db s db'
  unfolding update_schedule_metadata
  metadata-facts p h = ground arith

  create_block-facts :
      (p : BlockData)
      → create_schedule_block env company k e p db ≡ ok (s, db')
      → Written k e db s db'
  unfolding create_schedule_block
  create_block-facts p h = ground arith

  update_block-facts :
      (b : ℕ) (p : BlockPatch)
      → update_schedule_block env company k b e p db ≡ ok (s, db')
      → Written k e db s db'
  unfolding update_schedule_block
  update_block-facts b p h = ground arith

  delete_block-facts :
      (b : ℕ) → delete_schedule_block env k b e db ≡ ok (s, db') → Written k e db s db'
  unfolding delete_schedule_block
  delete_block-facts b h = ground arith

  create_exception-facts :
      (p : ExceptionData)
      → create_schedule_exception env company k e p db ≡ ok (s, db')
      → Written k e db s db'
  unfolding create_schedule_exception
  create_exception-facts p h = ground arith

  update_exception-facts :
      (b : ℕ) (p : ExceptionPatch)
      → update_schedule_exception env company k b e p db ≡ ok (s, db')
      → Written k e db s db'
  unfolding update_schedule_exception
  update_exception-facts b p h = ground arith

  delete_exception-facts :
      (b : ℕ) → delete_schedule_exception env k b e db ≡ ok (s, db') → Written k e db s db'
  unfolding delete_schedule_exception
  delete_exception-facts b h = ground arith

  update_assignment-facts :
      (b : ℕ) (p : AssignmentPatch)
      → update_schedule_assignment env k b e p db ≡ ok (s, db')
      → Written k e db s db'
  unfolding update_schedule_assignment
  update_assignment-facts b p h = ground arith

  deactivate_assignment-facts :
      (b : ℕ) → deactivate_schedule_assignment env k b e db ≡ ok (s, db') → Written k e db s db'
  unfolding deactivate_schedule_assignment
  deactivate_assignment-facts b h = ground arith

  archive-facts : archive_schedule env k e db ≡ ok (s, db') → Written k e db s db'
  unfolding archive_schedule
  archive-facts h = ground arith

  reactivate-facts : reactivate_schedule env k e db ≡ ok (s, db') → Written k e db s db'
  unfolding reactivate_schedule
  reactivate-facts h = ground arith

  disable-facts : disable_schedule env k e db ≡ ok (s, db') → Written k e db s db'
  unfolding disable_schedule
  disable-facts h = ground arith

  create_assignment-facts :
      (p : AssignmentData)
      → create_schedule_assignment env company k e p db ≡ ok (s, db')
      → Written k e db s db'
  unfolding create_schedule_assignment
  create_assignment-facts p h =
      elim (Result-cases (
        resolve_scope_from_payload env p.scope_new_id company p.scope_type p.site_id p.zone_id
          db)) [
            | inl (x, q) ↦ ground arith
            | inr ((scope, db1), q) ↦
                ground (
                  arith,
                  scope_only env p.scope_new_id company p.scope_type p.site_id p.zone_id db q,
                )
          ]

  pub run-Bumps : (r : Request) → run env company k e r db ≡ ok (s, db') → Bumps k e db s db'
  unfolding run
  run-Bumps (Request.update_metadata p) h = Facts-Bumps (metadata-facts p h)
  run-Bumps (Request.create_block p) h = Facts-Bumps (create_block-facts p h)
  run-Bumps (Request.update_block b p) h = Facts-Bumps (update_block-facts b p h)
  run-Bumps (Request.delete_block b) h = Facts-Bumps (delete_block-facts b h)
  run-Bumps (Request.create_exception p) h = Facts-Bumps (create_exception-facts p h)
  run-Bumps (Request.update_exception b p) h = Facts-Bumps (update_exception-facts b p h)
  run-Bumps (Request.delete_exception b) h = Facts-Bumps (delete_exception-facts b h)
  run-Bumps (Request.create_assignment p) h = Facts-Bumps (create_assignment-facts p h)
  run-Bumps (Request.update_assignment b p) h = Facts-Bumps (update_assignment-facts b p h)
  run-Bumps (Request.deactivate_assignment b) h = Facts-Bumps (deactivate_assignment-facts b h)
  run-Bumps Request.archive h = Facts-Bumps (archive-facts h)
  run-Bumps Request.reactivate h = Facts-Bumps (reactivate-facts h)
  run-Bumps Request.disable h = Facts-Bumps (disable-facts h)

-- After an accepted request the schedule is stored at the revision after the expected one.
stored_bumped :
    {k e : ℕ} {db : Db} {s : Schedule} {db' : Db}
    → Bumps k e db s db'
    → get k db'.schedules ≡ some s
stored_bumped {k} {e} {db} {s} {db'} b =
    let key : s.id ≡ k = b.same_key ∙ pk-get k db.schedules b.loaded in
    rw b.written (
      subst (λ j. get j (save s db.schedules) ≡ some s) key
        (get-save s db.schedules
          (subst (λ j. get j db.schedules ≡ some b.before) (sym key) b.loaded)))

-- A request on a schedule is accepted only at the schedule's current revision, and then the schedule
-- is stored one revision further: of whatever kind the request is.
pub accepted_revision :
    (env : Env) (company k e : ℕ) (r : Request) (db : Db) {s : Schedule} {db' : Db}
    → run env company k e r db ≡ ok (s, db')
    → ((s0 : Schedule) × (get k db.schedules ≡ some s0) × (s0.revision ≡ e))
      × (get k db'.schedules ≡ some s)
      × (s.revision ≡ e + 1)
accepted_revision env company k e r db h =
    let b = run-Bumps env company k e db r h in
    ((b.before, b.loaded, b.expected), stored_bumped b, b.bumped)

-- No lost update: once a request at revision e has been accepted, no second request of any kind that
-- was prepared at the same revision e of that schedule is accepted.
pub no_lost_update :
    (env env' : Env) (company company' k e : ℕ) (r r' : Request) (db : Db) {s : Schedule} {db' : Db}
    → run env company k e r db ≡ ok (s, db')
    → (s' : Schedule) (db'' : Db) → run env' company' k e r' db' ≢ ok (s', db'')
no_lost_update env env' company company' k e r r' db {s} {db'} h s' db'' h' =
    let b = run-Bumps env company k e db r h in
    let b' = run-Bumps env' company' k e db' r' h' in
    ground (arith, stored_bumped b, b.bumped, b'.loaded, b'.expected)
