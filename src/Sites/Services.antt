-- ===== src/Sites/Services.antt =====
-- Creating, describing, archiving and reactivating sites and zones (apps/organizations/services.py). The
-- row of the company is only locked. Columns that no check reads are left out.
use brandy_manager_back.Prelude.{
  ℕ, or_keep, Option, none, some, List, [], ◌∷◌, ◌++◌, map, Bool, not, ◌&&◌, ◌==◌, is_some,
  same_key, select, length, first,
}
use brandy_manager_back.Text.{Text, fits}
use brandy_manager_back.Result.{
  does_not_exist, diverged, validation_error, plan_limit_reached, site_code_conflict,
  zone_code_conflict, site_not_found, site_archived,
}
use brandy_manager_back.Table.{get, save, insert, update}
use brandy_manager_back.Transaction.{
  Transaction, ◌>>=◌, ◌>>◌, return, gets, or_raise, modify, raise_if, full_clean, assert_new,
}
use brandy_manager_back.Billing.{reaches, Plan, Subscription, LimitKey, company_limit}
use brandy_manager_back.Models.Organizations.{
  Site, SiteStatus, Zone, ZoneStatus, ResourceScope, ScopeType, site_is_archived, zone_is_archived,
  is_site_scope, is_zone_scope, site_row, zone_row, scope_row,
}
use brandy_manager_back.Sites.Codes.{has_text, generate_code}

pub record SiteDb : Type 0 where
  pub plans : List Plan
  pub subscriptions : List Subscription
  pub sites : List Site
  pub zones : List Zone
  pub scopes : List ResourceScope

-- Django's `slugify` and its checks of single columns.
pub record SiteEnv : Type 0 where
  pub slugify : Text → Text
  pub site_fields : Site → Bool
  pub zone_fields : Zone → Bool

abbrev pub S : Type 0 → Type 0
S A = Transaction SiteDb A

unfoldable pub check_plan_limit : LimitKey → ℕ → (SiteDb → ℕ) → S (Unit {0})
unfolding company_limit
check_plan_limit key company count =
    gets (λ db. reaches (count db) (company_limit key db.plans db.subscriptions company))
    >>= λ full. raise_if full plan_limit_reached

-- `Site.objects.filter(company=company).exclude(status=ARCHIVED)`, and of zones
abbrev pub is_open_site : ℕ → Site → Bool
is_open_site company s = s.company == company && not (site_is_archived s.status)

abbrev pub is_open_zone : ℕ → Zone → Bool
is_open_zone company z = z.company == company && not (zone_is_archived z.status)

-- The codes of the other sites of a company, and of the other zones of a site.
unfoldable pub site_codes : ℕ → Option ℕ → List Site → List Text
site_codes company but sites =
    map (λ s. s.code) (select (λ s. s.company == company && not (same_key (some s.id) but)) sites)

unfoldable pub zone_codes : ℕ → Option ℕ → List Zone → List Text
zone_codes site but zones =
    map (λ z. z.code) (select (λ z. z.site == site && not (same_key (some z.id) but)) zones)

-- `data.get("code") or _generate_code(...)`
unfoldable pub code_or_generated : SiteEnv → List Text → Text → Text → Option Text
unfolding generate_code
code_or_generated env codes [] name = generate_code env.slugify codes name
code_or_generated env codes (c ∷ cs) name = some (c ∷ cs)

abbrev pub new_scope : ℕ → ℕ → ScopeType → Option ℕ → Option ℕ → ResourceScope
new_scope new_id company scope_type site zone = record {
  id = new_id;
  company = company;
  scope_type = scope_type;
  organizational_unit = none;
  site = site;
  zone = zone;
  resource_group = none;
}

-- `get_or_create`; the name is a column that nothing reads, and must have at most 255 characters.
abbrev pub found_or_insert : Option ResourceScope → Text → ResourceScope → S (Unit {0})
found_or_insert none name s =
    raise_if (not (fits 255 name)) (validation_error "name")
    >> modify (λ db. record db { scopes = insert s db.scopes })
found_or_insert (some old) name s = return tt

-- `" - Sede"` and `" - Zona"`
abbrev site_suffix : Text
site_suffix = 32 ∷ 45 ∷ 32 ∷ 83 ∷ 101 ∷ 100 ∷ 101 ∷ []

abbrev zone_suffix : Text
zone_suffix = 32 ∷ 45 ∷ 32 ∷ 90 ∷ 111 ∷ 110 ∷ 97 ∷ []

unfoldable pub ensure_site_scope : ℕ → Site → S (Unit {0})
ensure_site_scope new_id site =
    gets (λ db. first (
      select
        (λ s.
          s.company == site.company
          && (is_site_scope s.scope_type && same_key s.site (some site.id)))
        db.scopes))
    >>= λ found.
        found_or_insert found (site.name ++ site_suffix)
          (new_scope new_id site.company ScopeType.site (some site.id) none)

unfoldable pub ensure_zone_scope : ℕ → Zone → S (Unit {0})
ensure_zone_scope new_id zone =
    gets (λ db. first (
      select
        (λ s.
          s.company == zone.company
          && (is_zone_scope s.scope_type && same_key s.zone (some zone.id)))
        db.scopes))
    >>= λ found.
        found_or_insert found (zone.name ++ zone_suffix)
          (new_scope new_id zone.company ScopeType.zone none (some zone.id))

unfoldable pub create_site : SiteEnv → ℕ → Text → Text → ℕ → ℕ → S Site
unfolding check_plan_limit site_codes code_or_generated has_text ensure_site_scope
create_site env company name code new_id scope_id =
    check_plan_limit LimitKey.sites company (λ db. length (select (is_open_site company) db.sites))
    >> gets (λ db. site_codes company none db.sites)
    >>= λ codes. or_raise (code_or_generated env codes code name) diverged >>= λ given.
        raise_if (has_text given codes) site_code_conflict
        >> (let site : Site = record {
          id = new_id;
          company = company;
          name = name;
          code = given;
          status = SiteStatus.active;
          archived_at = none;
        } in
            full_clean (env.site_fields site) none >> gets (λ db. db.sites) >>= λ sites.
            assert_new new_id sites
            >> modify (λ db. record db { sites = insert site db.sites })
            >> ensure_site_scope scope_id site
            >> return site)

abbrev pub stored_site : ℕ → S Site
stored_site k = gets (λ db. get k db.sites) >>= λ found. or_raise found does_not_exist

abbrev pub stored_zone : ℕ → S Zone
stored_zone k = gets (λ db. get k db.zones) >>= λ found. or_raise found does_not_exist

unfoldable pub update_site : SiteEnv → ℕ → Option Text → Option Text → S Site
unfolding site_codes has_text
update_site env k name code = stored_site k >>= λ old.
    (let site = record old { name = or_keep name old.name; code = or_keep code old.code } in
      gets (λ db. is_some code && has_text site.code (site_codes site.company (some k) db.sites))
      >>= λ taken.
          raise_if taken site_code_conflict
          >> full_clean (env.site_fields site) none
          >> modify (λ db. record db { sites = save site db.sites })
          >> return site)

-- The zones of an archived site are archived with it.
abbrev pub archived_with : ℕ → Zone → Zone
archived_with now z = record z { status = ZoneStatus.archived; archived_at = some now }

unfoldable pub archive_site : ℕ → ℕ → S Site
archive_site k now = stored_site k >>= λ old.
    (let site = record old { status = SiteStatus.archived; archived_at = some now } in
      modify (λ db. record db {
        sites = save site db.sites;
        zones =
            update (λ z. z.site == k && not (zone_is_archived z.status)) (archived_with now)
              db.zones;
      })
      >> return site)

unfoldable pub reactivate_site : ℕ → S Site
unfolding check_plan_limit
reactivate_site k = stored_site k >>= λ old.
    check_plan_limit LimitKey.sites old.company
      (λ db. length (select (λ s. is_open_site old.company s && not (s.id == k)) db.sites))
    >> (let site = record old { status = SiteStatus.active; archived_at = none } in
        modify (λ db. record db { sites = save site db.sites }) >> return site)

-- `Site.objects.get(company=company, id=site_id)`
unfoldable pub load_own_site : ℕ → ℕ → S Site
load_own_site company k =
    gets (λ db. get k (select (λ s. s.company == company) db.sites)) >>= λ found.
    or_raise found site_not_found

unfoldable pub create_zone : SiteEnv → ℕ → ℕ → Text → Text → ℕ → ℕ → S Zone
unfolding check_plan_limit load_own_site zone_codes code_or_generated has_text ensure_zone_scope
create_zone env company site_id name code new_id scope_id =
    check_plan_limit LimitKey.zones company (λ db. length (select (is_open_zone company) db.zones))
    >> load_own_site company site_id
    >>= λ site.
        raise_if (site_is_archived site.status) site_archived
        >> gets (λ db. zone_codes site.id none db.zones)
        >>= λ codes. or_raise (code_or_generated env codes code name) diverged >>= λ given.
            raise_if (has_text given codes) zone_code_conflict
            >> (let zone : Zone = record {
              id = new_id;
              company = company;
              site = site.id;
              name = name;
              code = given;
              status = ZoneStatus.active;
              archived_at = none;
            } in
                full_clean (env.zone_fields zone) none >> gets (λ db. db.zones) >>= λ zones.
                assert_new new_id zones
                >> modify (λ db. record db { zones = insert zone db.zones })
                >> ensure_zone_scope scope_id zone
                >> return zone)

unfoldable pub update_zone : SiteEnv → ℕ → Option Text → Option Text → S Zone
unfolding zone_codes has_text
update_zone env k name code = stored_zone k >>= λ old.
    (let zone = record old { name = or_keep name old.name; code = or_keep code old.code } in
      gets (λ db. is_some code && has_text zone.code (zone_codes zone.site (some k) db.zones))
      >>= λ taken.
          raise_if taken zone_code_conflict
          >> full_clean (env.zone_fields zone) none
          >> modify (λ db. record db { zones = save zone db.zones })
          >> return zone)

unfoldable pub archive_zone : ℕ → ℕ → S Zone
archive_zone k now = stored_zone k >>= λ old.
    (let zone = archived_with now old in
      modify (λ db. record db { zones = save zone db.zones }) >> return zone)

unfoldable pub reactivate_zone : ℕ → S Zone
unfolding check_plan_limit
reactivate_zone k = stored_zone k >>= λ old. stored_site old.site >>= λ site.
    raise_if (site_is_archived site.status) site_archived
    >> check_plan_limit LimitKey.zones old.company
        (λ db. length (select (λ z. is_open_zone old.company z && not (z.id == k)) db.zones))
    >> (let zone = record old { status = ZoneStatus.active; archived_at = none } in
        modify (λ db. record db { zones = save zone db.zones }) >> return zone)

pub data SiteRequest : Type 0 where
  create : ℕ → Text → Text → ℕ → ℕ → SiteRequest
  describe : ℕ → Option Text → Option Text → SiteRequest
  archive : ℕ → SiteRequest
  reactivate : ℕ → SiteRequest
  create_in : ℕ → ℕ → Text → Text → ℕ → ℕ → SiteRequest
  describe_zone : ℕ → Option Text → Option Text → SiteRequest
  close_zone : ℕ → SiteRequest
  reopen_zone : ℕ → SiteRequest

unfoldable pub run_site : SiteEnv → ℕ → SiteRequest → S (Unit {0})
unfolding create_site update_site archive_site reactivate_site create_zone update_zone archive_zone
    reactivate_zone
run_site env now (SiteRequest.create c n code i j) = create_site env c n code i j >> return tt
run_site env now (SiteRequest.describe k n code) = update_site env k n code >> return tt
run_site env now (SiteRequest.archive k) = archive_site k now >> return tt
run_site env now (SiteRequest.reactivate k) = reactivate_site k >> return tt
run_site env now (SiteRequest.create_in c s n code i j) =
    create_zone env c s n code i j >> return tt
run_site env now (SiteRequest.describe_zone k n code) = update_zone env k n code >> return tt
run_site env now (SiteRequest.close_zone k) = archive_zone k now >> return tt
run_site env now (SiteRequest.reopen_zone k) = reactivate_zone k >> return tt
