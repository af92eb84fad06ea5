-- ===== src/Sites/Everything.antt =====
-- Every request on sites and zones (apps/organizations/services.py) leaves archived sites closed.
use brandy_manager_back.Prelude.{
  ℕ, ◌≡◌, sym, ap, ◌∙◌, Option, some, List, not, ◌&&◌, ◌==◌, arith, inl, inr, select, mem-select,
  Option-cases,
}
use brandy_manager_back.Text.{Text}
use brandy_manager_back.Result.{ok}
use brandy_manager_back.Table.{get, save, insert, update, HasUniqueKeys, mem-get, pk-get}
use brandy_manager_back.Transaction.{ran}
use brandy_manager_back.Models.Organizations.{
  Site, Zone, site_is_archived, zone_is_archived, site_row, zone_row, scope_row,
}
use brandy_manager_back.Sites.Services.{
  SiteDb, SiteEnv, SiteRequest, check_plan_limit, ensure_site_scope, ensure_zone_scope, create_site,
  update_site, archive_site, archived_with, reactivate_site, load_own_site, create_zone,
  update_zone, archive_zone, reactivate_zone, run_site,
}
use brandy_manager_back.Sites.Closed.{
  IsClosed, saved_site-IsClosed, saved_zone-IsClosed, inserted_zone-IsClosed,
  inserted_site-IsClosed, archived-IsClosed, rewritten,
}

abbrev pub Closed : SiteDb → Type 0
Closed db = IsClosed db.sites db.zones

-- A site that is found among those of a company is the stored one.
own_site :
    (company k : ℕ) (sites : List Site) {s t : Site}
    → HasUniqueKeys sites
    → get k (select (λ s. s.company == company) sites) ≡ some s
    → get s.id sites ≡ some t
    → t ≡ s
own_site company k sites {s} {t} u l g =
    let own = mem-get k (select (λ s. s.company == company) sites) l in
    u t s (mem-get s.id sites g) (mem-select (λ s. s.company == company) sites own).0
      (pk-get s.id sites g)

module _ (env : SiteEnv) (now : ℕ) (db : SiteDb) {db' : SiteDb} where
  create_site-Closed :
      (c : ℕ) (n code : Text) (i j : ℕ) {s : Site}
      → create_site env c n code i j db ≡ ok (s, db')
      → Closed db
      → Closed db'
  unfolding create_site check_plan_limit ensure_site_scope
  create_site-Closed c n code i j {s} h w =
      rewritten {sites = insert s db.sites} {zones = db.zones} (ground arith) (ground arith)
        (inserted_site-IsClosed db.sites db.zones s (ground arith) (ground arith) w)

  update_site-Closed :
      (k : ℕ) (n code : Option Text) {s : Site}
      → update_site env k n code db ≡ ok (s, db')
      → Closed db
      → Closed db'
  unfolding update_site
  update_site-Closed k n code {s} h w = elim (Option-cases (get k db.sites)) [
    | inl e ↦ absurd (ground (arith, h, e))
    | inr (old, l) ↦
        rewritten {sites = save s db.sites} {zones = db.zones} (ground (arith, l))
          (ground (arith, l))
          (saved_site-IsClosed k db.sites db.zones old s l (ground (arith, l))
            (λ a. ground (arith, l, a)) w)
  ]

  archive_site-Closed :
      (k : ℕ) {s : Site} → archive_site k now db ≡ ok (s, db') → Closed db → Closed db'
  unfolding archive_site
  archive_site-Closed k {s} h w = elim (Option-cases (get k db.sites)) [
    | inl e ↦ absurd (ground (arith, h, e))
    | inr (old, l) ↦
        rewritten {sites = save s db.sites}
          {zones = update (λ z. z.site == k && not (zone_is_archived z.status)) (archived_with now)
            db.zones}
          (ground (arith, l)) (ground (arith, l))
          (archived-IsClosed k now db.sites db.zones s (ground (arith, l, pk-get k db.sites l)) w)
  ]

  reactivate_site-Closed :
      (k : ℕ) {s : Site} → reactivate_site k db ≡ ok (s, db') → Closed db → Closed db'
  unfolding reactivate_site check_plan_limit
  reactivate_site-Closed k {s} h w = elim (Option-cases (get k db.sites)) [
    | inl e ↦ absurd (ground (arith, h, e))
    | inr (old, l) ↦
        rewritten {sites = save s db.sites} {zones = db.zones} (ground (arith, l))
          (ground (arith, l))
          (saved_site-IsClosed k db.sites db.zones old s l (ground (arith, l))
            (λ a. ground (arith, l, a)) w)
  ]

  create_zone-Closed :
      (c s : ℕ) (n code : Text) (i j : ℕ) {z : Zone}
      → create_zone env c s n code i j db ≡ ok (z, db')
      → Closed db
      → Closed db'
  unfolding create_zone check_plan_limit load_own_site ensure_zone_scope
  create_zone-Closed c s n code i j {z} h w =
      elim (Option-cases (get s (select (λ t. t.company == c) db.sites))) [
        | inl e ↦ absurd (ground (arith, h, e))
        | inr (site, l) ↦
            rewritten {sites = db.sites} {zones = insert z db.zones} (ground (arith, l))
              (ground (arith, l))
              (inserted_zone-IsClosed db.sites db.zones z
                (λ t g.
                  let at : z.site ≡ site.id = ground (arith, l) in
                  ap (λ v. site_is_archived v.status)
                    (own_site c s db.sites w.keys l (ap (λ j. get j db.sites) (sym at) ∙ g))
                  ∙ ground (arith, l))
                w)
      ]

  update_zone-Closed :
      (k : ℕ) (n code : Option Text) {z : Zone}
      → update_zone env k n code db ≡ ok (z, db')
      → Closed db
      → Closed db'
  unfolding update_zone
  update_zone-Closed k n code {z} h w = elim (Option-cases (get k db.zones)) [
    | inl e ↦ absurd (ground (arith, h, e))
    | inr (old, l) ↦
        rewritten {sites = db.sites} {zones = save z db.zones} (ground (arith, l))
          (ground (arith, l))
          (saved_zone-IsClosed db.sites db.zones z
            (λ s g a.
              let at : z.site ≡ old.site = ground (arith, l) in
              let same : z.status ≡ old.status = ground (arith, l) in
              ap zone_is_archived same
              ∙ w.closed old s (mem-get k db.zones l) (ap (λ j. get j db.sites) (sym at) ∙ g) a)
            w)
  ]

  archive_zone-Closed :
      (k : ℕ) {z : Zone} → archive_zone k now db ≡ ok (z, db') → Closed db → Closed db'
  unfolding archive_zone
  archive_zone-Closed k {z} h w = elim (Option-cases (get k db.zones)) [
    | inl e ↦ absurd (ground (arith, h, e))
    | inr (old, l) ↦
        rewritten {sites = db.sites} {zones = save z db.zones} (ground (arith, l))
          (ground (arith, l))
          (saved_zone-IsClosed db.sites db.zones z (λ s g a. ground (arith, l)) w)
  ]

  reactivate_zone-Closed :
      (k : ℕ) {z : Zone} → reactivate_zone k db ≡ ok (z, db') → Closed db → Closed db'
  unfolding reactivate_zone check_plan_limit
  reactivate_zone-Closed k {z} h w = elim (Option-cases (get k db.zones)) [
    | inl e ↦ absurd (ground (arith, h, e))
    | inr (old, l) ↦ elim (Option-cases (get old.site db.sites)) [
      | inl e ↦ absurd (ground (arith, h, l, e))
      | inr (site, ls) ↦
          rewritten {sites = db.sites} {zones = save z db.zones} (ground (arith, l, ls))
            (ground (arith, l, ls))
            (saved_zone-IsClosed db.sites db.zones z
              (λ s g a.
                let at : z.site ≡ old.site = ground (arith, l, ls) in
                let same : get old.site db.sites ≡ some s = ap (λ j. get j db.sites) (sym at) ∙ g in
                absurd (ground (arith, l, ls, same, a, h)))
              w)
    ]
  ]

-- Every accepted request on sites and zones keeps this: sites have different keys, and all zones of a
-- stored site that is archived are archived.
pub run_site-IsClosed :
    (env : SiteEnv) (now : ℕ) (r : SiteRequest) (db : SiteDb) {u : Unit {0}} {db' : SiteDb}
    → run_site env now r db ≡ ok (u, db')
    → IsClosed db.sites db.zones
    → IsClosed db'.sites db'.zones
unfolding run_site
run_site-IsClosed env now (SiteRequest.create c n code i j) db h =
    create_site-Closed env now db c n code i j (ran (create_site env c n code i j) {db = db} h).1
run_site-IsClosed env now (SiteRequest.describe k n code) db h =
    update_site-Closed env now db k n code (ran (update_site env k n code) {db = db} h).1
run_site-IsClosed env now (SiteRequest.archive k) db h =
    archive_site-Closed env now db k (ran (archive_site k now) {db = db} h).1
run_site-IsClosed env now (SiteRequest.reactivate k) db h =
    reactivate_site-Closed env now db k (ran (reactivate_site k) {db = db} h).1
run_site-IsClosed env now (SiteRequest.create_in c s n code i j) db h =
    create_zone-Closed env now db c s n code i j
      (ran (create_zone env c s n code i j) {db = db} h).1
run_site-IsClosed env now (SiteRequest.describe_zone k n code) db h =
    update_zone-Closed env now db k n code (ran (update_zone env k n code) {db = db} h).1
run_site-IsClosed env now (SiteRequest.close_zone k) db h =
    archive_zone-Closed env now db k (ran (archive_zone k now) {db = db} h).1
run_site-IsClosed env now (SiteRequest.reopen_zone k) db h =
    reactivate_zone-Closed env now db k (ran (reactivate_zone k) {db = db} h).1
