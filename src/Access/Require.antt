-- ===== src/Access/Require.antt =====
-- The check that every view makes (apps/authorization/services.py, `require_company_permission`), and
-- the sites and zones that a membership sees.
use brandy_manager_back.Prelude.{
  ℕ, Option, none, some, List, [], ◌∷◌, ◌++◌, map, Bool, false, not, ◌&&◌, ◌||◌, ◌==◌,
  if◌then◌else◌, is_none, select, exists, first,
}
use brandy_manager_back.Result.{
  Result, ok, err, company_access_denied, permission_denied, functional_access_blocked,
}
use brandy_manager_back.Table.{get}
use brandy_manager_back.Billing.{
  Subscription, get_current_subscription_for_company, has_functional_access,
}
use brandy_manager_back.Models.Organizations.{
  ResourceScope, ScopeType, is_company_scope, is_site_scope, is_zone_scope, zone_row, scope_row,
}
use brandy_manager_back.Access.Rows.{
  AccessDb, User, CompanyMembership, MembershipGrant, membership_is_active, platform_role_row,
}
use brandy_manager_back.Access.Permissions.{
  grant_is_current, membership_has_permission, holds_code, membership_has_permission_on_any_scope,
  active_grants,
}

unfoldable pub user_has_active_platform_role : AccessDb → User → Bool
user_has_active_platform_role db u =
    exists
      (λ r.
        r.user == u.id
        && (is_none r.revoked_at
            && elim (get r.role db.platform_roles) [ none ↦ false | some role ↦ role.is_active ]))
      db.user_platform_roles

-- The user is authenticated.
unfoldable pub get_active_client_membership_or_raise : AccessDb → User → Result CompanyMembership
unfolding user_has_active_platform_role
get_active_client_membership_or_raise db u =
    if user_has_active_platform_role db u || (not u.is_active || is_none u.email_verified_at)
    then err company_access_denied
    else elim (first
        (select (λ m. m.user == u.id && membership_is_active m.status) db.memberships)) [
          | none ↦ err company_access_denied
          | some m ↦ ok m
        ]

unfoldable pub ensure_functional_access : AccessDb → CompanyMembership → ℕ → Result Subscription
unfolding get_current_subscription_for_company has_functional_access
ensure_functional_access db m at =
    elim (get_current_subscription_for_company db.subscriptions m.company) [
      | none ↦ err functional_access_blocked
      | some s ↦ if has_functional_access at s then ok s else err functional_access_blocked
    ]

-- A scope of the company is given, or found, or made by `get_company_scope` under the key given.
unfoldable pub company_scope : AccessDb → ℕ → ℕ → ResourceScope
company_scope db company new_id =
    elim (first (select (λ s. s.company == company && is_company_scope s.scope_type) db.scopes)) [
      | some s ↦ s
      | none ↦ record {
        id = new_id;
        company = company;
        scope_type = ScopeType.company;
        organizational_unit = none;
        site = none;
        zone = none;
        resource_group = none;
      }
    ]

abbrev pub target_or_company : AccessDb → ℕ → ℕ → Option ResourceScope → ResourceScope
target_or_company db company new_id none = company_scope db company new_id
target_or_company db company new_id (some s) = s

-- What follows once the membership is known.
unfoldable pub check_permission :
    AccessDb → CompanyMembership → ℕ → ResourceScope → ℕ → Result CompanyMembership
unfolding membership_has_permission membership_has_permission_on_any_scope
check_permission db m code target at =
    if not (target.company == m.company)
    then err company_access_denied
    else if is_company_scope target.scope_type
        && membership_has_permission_on_any_scope db m code at
    then ok m
    else if membership_has_permission db m code target at
    then ok m
    else err permission_denied

unfoldable pub require_company_permission :
    AccessDb → User → ℕ → Option ResourceScope → ℕ → Bool → ℕ → Result CompanyMembership
unfolding get_active_client_membership_or_raise ensure_functional_access check_permission
    company_scope
require_company_permission db u code scope at check_functional_access new_id =
    elim (get_active_client_membership_or_raise db u) [
      | err e ↦ err e
      | ok m ↦
          let checked =
            check_permission db m code (target_or_company db m.company new_id scope) at in
          if check_functional_access
          then elim (ensure_functional_access db m at) [ err e ↦ err e | ok s ↦ checked ]
          else checked
    ]

-- The loop over the grants: those whose own scope gives the permission.
abbrev pub giving_scopes :
    AccessDb → CompanyMembership → ℕ → ℕ → List MembershipGrant → List ResourceScope
giving_scopes db m code at [] = []
giving_scopes db m code at (g ∷ gs) =
    let rest = giving_scopes db m code at gs in
    elim (get g.scope db.scopes) [
      | none ↦ rest
      | some s ↦
          if grant_is_current g at && membership_has_permission db m code s at
          then s ∷ rest
          else rest
    ]

-- `scope.site_id` of a site, `scope.zone.site_id` of a zone
abbrev pub scope_sites : AccessDb → ResourceScope → List ℕ
scope_sites db s = elim s.scope_type [
  | ScopeType.site ↦ elim s.site [ none ↦ [] | some k ↦ k ∷ [] ]
  | ScopeType.zone ↦ elim s.zone [
    | none ↦ []
    | some k ↦ elim (get k db.zones) [ none ↦ [] | some z ↦ z.site ∷ [] ]
  ]
  | _ ↦ []
]

abbrev pub all_sites : AccessDb → List ResourceScope → List ℕ
all_sites db [] = []
all_sites db (s ∷ ss) = scope_sites db s ++ all_sites db ss

-- `None` stands for every site.
unfoldable pub site_ids_accessible_by_membership :
    AccessDb → CompanyMembership → ℕ → ℕ → ℕ → Option (List ℕ)
unfolding membership_has_permission grant_is_current company_scope
site_ids_accessible_by_membership db m code at new_id =
    if membership_has_permission db m code (company_scope db m.company new_id) at
    then none
    else some (all_sites db (giving_scopes db m code at (active_grants db m)))

abbrev pub own_sites : List ResourceScope → List ℕ
own_sites [] = []
own_sites (s ∷ ss) =
    let rest = own_sites ss in
    if is_site_scope s.scope_type then elim s.site [ none ↦ rest | some k ↦ k ∷ rest ] else rest

abbrev pub own_zones : List ResourceScope → List ℕ
own_zones [] = []
own_zones (s ∷ ss) =
    let rest = own_zones ss in
    if is_zone_scope s.scope_type then elim s.zone [ none ↦ rest | some k ↦ k ∷ rest ] else rest

unfoldable pub zone_ids_accessible_by_membership :
    AccessDb → CompanyMembership → ℕ → ℕ → ℕ → Option (List ℕ)
unfolding membership_has_permission grant_is_current company_scope
zone_ids_accessible_by_membership db m code at new_id =
    if membership_has_permission db m code (company_scope db m.company new_id) at
    then none
    else let scopes = giving_scopes db m code at (active_grants db m) in
      some (
        own_zones scopes
        ++ map (λ z. z.id) (select (λ z. holds_code z.site (own_sites scopes)) db.zones))
