-- ===== src/Access/Tests.antt =====
-- A manager of a site, whose permission 7 is denied at the company, and instances of the theorems.
use brandy_manager_back.Prelude.{
  ◌≡◌, ◌<◌, refl, sym, ap, none, some, [], ◌∷◌, true, false, arith, Memᴰ, subst, exists, select,
  insert_by, sort_by, mem-singleton,
}
use brandy_manager_back.Result.{ok}
use brandy_manager_back.Table.{get}
use brandy_manager_back.Billing.{
  SubscriptionStatus, get_current_subscription_for_company, has_functional_access,
}
use brandy_manager_back.Models.Organizations.{ResourceScope, ScopeType, scope_row}
use brandy_manager_back.Access.Rows.{
  AccessDb, User, CompanyMembership, MembershipStatus, MembershipGrant,
  MembershipPermissionOverride, Effect, is_allow,
}
use brandy_manager_back.Access.Permissions.{
  grant_is_current, override_is_current, ordered_overrides, active_grants,
  membership_has_permission, scope_matches, matches_in_company, granted_codes, apply_override,
  apply_overrides, resolve_effective_permissions, membership_has_permission_on_any_scope,
}
use brandy_manager_back.Access.Require.{
  user_has_active_platform_role, get_active_client_membership_or_raise, ensure_functional_access,
  check_permission, require_company_permission,
}
use brandy_manager_back.Access.Overrides.{
  last, concerns, decided, is_granted_code, membership_has_permission-decided,
}
use brandy_manager_back.Access.Isolation.{IsWithinCompany, membership_has_permission-isolated}
use brandy_manager_back.Access.Authorized.{
  IsAuthorized, HasAccess, require_company_permission-IsAuthorized,
}

abbrev user : User
user = record { id = 1; is_active = true; email_verified_at = some 5 }

abbrev member : CompanyMembership
member = record { id = 2; company = 3; user = 1; status = MembershipStatus.active }

abbrev whole : ResourceScope
whole = record {
  id = 20;
  company = 3;
  scope_type = ScopeType.company;
  organizational_unit = none;
  site = none;
  zone = none;
  resource_group = none;
}

abbrev site_scope : ResourceScope
site_scope = record whole { id = 21; scope_type = ScopeType.site; site = some 30 }

abbrev foreign_scope : ResourceScope
foreign_scope = record whole { id = 22; company = 4 }

abbrev grant : MembershipGrant
grant = record {
  id = 40;
  membership = 2;
  role = 50;
  scope = 21;
  starts_at = none;
  ends_at = some 1000;
  is_active = true;
}

abbrev denial : MembershipPermissionOverride
denial = record {
  id = 60;
  membership = 2;
  scope = 20;
  permission = 7;
  effect = Effect.deny;
  starts_at = none;
  ends_at = none;
  created_at = 9;
}

abbrev db : AccessDb
db = record {
  users = user ∷ [];
  platform_roles = [];
  user_platform_roles = [];
  memberships = member ∷ [];
  role_permissions = record { role = 50; permission = 7 } ∷ [];
  grants = grant ∷ [];
  overrides = denial ∷ [];
  scopes = whole ∷ site_scope ∷ foreign_scope ∷ [];
  zones = [];
  plans = [];
  subscriptions =
      record {
        id = 1;
        company = 3;
        plan = none;
        status = SubscriptionStatus.active;
        started_at = 0;
        created_at = 0;
        trial_ends_at = none;
        snapshot_limits = [];
        snapshot_feature_limits = [];
      }
      ∷ [];
}

membership_has_permission-decided_example :
    membership_has_permission db member 7 site_scope 100
    ≡ decided
        (last (select (concerns 7 100) (ordered_overrides db member site_scope)))
        (exists (is_granted_code db site_scope 100 7) (active_grants db member))
membership_has_permission-decided_example =
    membership_has_permission-decided db member 7 site_scope 100

denial_listed : ordered_overrides db member whole ≡ denial ∷ []
unfolding ordered_overrides sort_by insert_by
denial_listed = refl

denial_mem : Memᴰ denial (ordered_overrides db member whole)
denial_mem = subst (Memᴰ denial) (sym denial_listed) (Memᴰ.head refl)

concerns-denial : concerns 7 100 denial ≡ true
unfolding override_is_current
concerns-denial = refl

no_allowance :
    (o : MembershipPermissionOverride)
    → Memᴰ o (ordered_overrides db member whole)
    → concerns 7 100 o ≡ true
    → is_allow o.effect ≡ true
    → o.created_at < 9
no_allowance o m c a = absurd (
    ground (arith, a, ap (λ w. is_allow w.effect) (mem-singleton (subst (Memᴰ o) denial_listed m))))

within : IsWithinCompany db member
within = record {
  grants = λ g m s own l. ground (arith, l, ap (λ w. get w.scope db.scopes) (mem-singleton m));
  overrides = λ o m s own l. ground (arith, l, ap (λ w. get w.scope db.scopes) (mem-singleton m));
}

membership_has_permission-isolated_example :
    membership_has_permission db member 7 foreign_scope 100 ≡ false
membership_has_permission-isolated_example =
    membership_has_permission-isolated db member 7 100 foreign_scope within refl
      (λ e. ground (arith, e))

required : require_company_permission db user 7 (some site_scope) 100 true 99 ≡ ok member
unfolding require_company_permission get_active_client_membership_or_raise
    user_has_active_platform_role ensure_functional_access get_current_subscription_for_company
    has_functional_access check_permission membership_has_permission resolve_effective_permissions
    granted_codes ordered_overrides apply_overrides apply_override override_is_current
    grant_is_current scope_matches matches_in_company sort_by insert_by
    membership_has_permission_on_any_scope
required = refl

require_company_permission-IsAuthorized_example :
    IsAuthorized db user 7 (some site_scope) 100 99 member × HasAccess db 3 100
require_company_permission-IsAuthorized_example =
    require_company_permission-IsAuthorized db user 7 (some site_scope) 100 99 member required

grant_runs : grant_is_current grant 100 ≡ true
unfolding grant_is_current
grant_runs = refl
