-- ===== src/Sites/Limits.antt =====
-- The plan's limit on sites (apps/organizations/services.py, `create_site`).
use brandy_manager_back.Prelude.{ℕ, suc, ◌≤◌, ◌≡◌, some, List, [], ◌∷◌, arith, length, select}
use brandy_manager_back.Text.{Text}
use brandy_manager_back.Result.{ok}
use brandy_manager_back.Table.{insert}
use brandy_manager_back.Billing.{LimitKey, company_limit}
use brandy_manager_back.Models.Organizations.{Site, site_row, scope_row}
use brandy_manager_back.Sites.Services.{
  SiteDb, SiteEnv, is_open_site, check_plan_limit, ensure_site_scope, create_site,
}

count-insert :
    (company : ℕ) (s : Site) (xs : List Site)
    → length (select (is_open_site company) (insert s xs))
      ≤ suc (length (select (is_open_site company) xs))
count-insert company s [] = ground arith
count-insert company s (x ∷ xs) = ground (arith, count-insert company s xs)

-- After a site has been created, the open sites of the company are at most as many as the limit of its
-- plan, if there is one.
pub create_site-limit :
    (env : SiteEnv) (company : ℕ) (name code : Text) (new_id scope_id : ℕ) (db : SiteDb) {s : Site}
    {db' : SiteDb} (limit : ℕ)
    → create_site env company name code new_id scope_id db ≡ ok (s, db')
    → company_limit LimitKey.sites db.plans db.subscriptions company ≡ some limit
    → length (select (is_open_site company) db'.sites) ≤ limit
unfolding create_site check_plan_limit ensure_site_scope
create_site-limit env company name code new_id scope_id db {s} limit h l =
    ground (arith, count-insert company s db.sites)
