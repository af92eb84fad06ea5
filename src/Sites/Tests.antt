-- ===== src/Sites/Tests.antt =====
-- A site with one zone, and instances of the theorems about them.
use brandy_manager_back.Prelude.{
  ◌≡◌, ◌≤◌, refl, sym, ap, ◌∙◌, none, some, [], ◌∷◌, true, false, arith, length, select,
  mem-singleton, false, sort_by, insert_by,
}
use brandy_manager_back.Result.{ok}
use brandy_manager_back.Table.{get}
use brandy_manager_back.Billing.{
  SubscriptionStatus, LimitKey, company_limit, effective_limits, get_limit, has_limit,
  normalize_limits, get_current_subscription_for_company,
}
use brandy_manager_back.Models.Organizations.{
  Site, SiteStatus, Zone, ZoneStatus, ScopeType, site_row,
}
use brandy_manager_back.Text.{Text, text_eq, upper, upper_char}
use brandy_manager_back.Sites.Codes.{has_text, generate_code, unused_code, generate_code-ends}
use brandy_manager_back.Sites.Services.{
  SiteDb, SiteEnv, SiteRequest, is_open_site, site_codes, create_site, archive_site, archived_with,
  new_scope, check_plan_limit, code_or_generated, ensure_site_scope, run_site,
}
use brandy_manager_back.Sites.Closed.{IsClosed}
use brandy_manager_back.Sites.Everything.{run_site-IsClosed}
use brandy_manager_back.Sites.Limits.{create_site-limit}

abbrev env : SiteEnv
env = record { slugify = λ text. text; site_fields = λ s. true; zone_fields = λ z. true }

abbrev site : Site
site = record {
  id = 20;
  company = 1;
  name = 65 ∷ [];
  code = 65 ∷ [];
  status = SiteStatus.active;
  archived_at = none;
}

abbrev zone : Zone
zone = record {
  id = 30;
  company = 1;
  site = 20;
  name = 66 ∷ [];
  code = 66 ∷ [];
  status = ZoneStatus.active;
  archived_at = none;
}

abbrev db : SiteDb
db = record {
  plans = record { id = 1; limits = (LimitKey.sites, some 2) ∷ [] } ∷ [];
  subscriptions =
      record {
        id = 1;
        company = 1;
        plan = some 1;
        status = SubscriptionStatus.active;
        started_at = 0;
        created_at = 0;
        trial_ends_at = none;
        snapshot_limits = [];
        snapshot_feature_limits = [];
      }
      ∷ [];
  sites = site ∷ [];
  zones = zone ∷ [];
  scopes = [];
}

db-IsClosed : IsClosed db.sites db.zones
db-IsClosed = record {
  keys = λ a b ma mb e. mem-singleton ma ∙ sym (mem-singleton mb);
  closed = λ z s m g a. ground (arith, g, a, ap (λ w. get w.site db.sites) (mem-singleton m));
}

abbrev after_archive : SiteDb
after_archive = record db {
  sites = record site { status = SiteStatus.archived; archived_at = some 50 } ∷ [];
  zones = archived_with 50 zone ∷ [];
}

archive_run : run_site env 50 (SiteRequest.archive 20) db ≡ ok (tt, after_archive)
unfolding run_site archive_site
archive_run = refl

run_site-IsClosed_example : IsClosed after_archive.sites after_archive.zones
run_site-IsClosed_example =
    run_site-IsClosed env 50 (SiteRequest.archive 20) db archive_run db-IsClosed

abbrev created_site : Site
created_site = record {
  id = 21;
  company = 1;
  name = 97 ∷ [];
  code = 65 ∷ 45 ∷ 50 ∷ [];
  status = SiteStatus.active;
  archived_at = none;
}

abbrev created_db : SiteDb
created_db = record db {
  sites = site ∷ created_site ∷ [];
  scopes = new_scope 41 1 ScopeType.site (some 21) none ∷ [];
}

create_site_run : create_site env 1 (97 ∷ []) [] 21 41 db ≡ ok (created_site, created_db)
unfolding create_site check_plan_limit company_limit effective_limits get_limit has_limit
    normalize_limits get_current_subscription_for_company sort_by insert_by site_codes
    code_or_generated generate_code unused_code has_text text_eq upper upper_char ensure_site_scope
create_site_run = refl

create_site-limit_example : length (select (is_open_site 1) created_db.sites) ≤ 2
unfolding company_limit effective_limits get_limit has_limit normalize_limits
    get_current_subscription_for_company sort_by insert_by
create_site-limit_example = create_site-limit env 1 (97 ∷ []) [] 21 41 db 2 create_site_run refl

generate_code-ends_example :
    (code : Text) × (generate_code (λ text. text) ((65 ∷ []) ∷ []) (97 ∷ []) ≡ some code)
    × (has_text code ((65 ∷ []) ∷ []) ≡ false)
generate_code-ends_example = generate_code-ends (λ text. text) ((65 ∷ []) ∷ []) (97 ∷ [])
