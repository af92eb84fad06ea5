-- ===== src/Access/Authorized.antt =====
-- What `require_company_permission` (apps/authorization/services.py) ascertains.
use brandy_manager_back.Prelude.{
  ℕ, ◌≡◌, sym, ap, ◌∙◌, subst, Option, some, true, false, ◌&&◌, ◌==◌, arith, ◌⊎◌, inl, inr, Memᴰ,
  exists-mem, first, select, mem-select, mem-first, is_none, Bool-cases, Option-cases,
}
use brandy_manager_back.Result.{ok, Result-cases}
use brandy_manager_back.Billing.{
  Subscription, get_current_subscription_for_company, has_functional_access,
}
use brandy_manager_back.Models.Organizations.{ResourceScope, is_company_scope, scope_row}
use brandy_manager_back.Access.Rows.{
  AccessDb, User, CompanyMembership, MembershipGrant, membership_is_active,
}
use brandy_manager_back.Access.Permissions.{
  grant_is_current, active_grants, role_codes, holds_code, membership_has_permission,
  membership_has_permission_on_any_scope,
}
use brandy_manager_back.Access.Require.{
  user_has_active_platform_role, get_active_client_membership_or_raise, ensure_functional_access,
  check_permission, target_or_company, require_company_permission,
}

-- What a permission that was required and given stands for.
pub record IsAuthorized (db : AccessDb) (u : User) (code : ℕ) (scope : Option ResourceScope)
    (at : ℕ) (new_id : ℕ) (m : CompanyMembership) : Type 0 where
  pub member : Memᴰ m db.memberships
  pub of_user : m.user ≡ u.id
  pub membership_active : membership_is_active m.status ≡ true
  pub user_active : u.is_active ≡ true
  pub verified : is_none u.email_verified_at ≡ false
  pub client : user_has_active_platform_role db u ≡ false
  pub own_company : (target_or_company db m.company new_id scope).company ≡ m.company
  pub permitted :
      (membership_has_permission db m code (target_or_company db m.company new_id scope) at ≡ true)
      ⊎ ((is_company_scope (target_or_company db m.company new_id scope).scope_type ≡ true)
          × (g : MembershipGrant) × Memᴰ g db.grants
          × (g.membership ≡ m.id)
          × (grant_is_current g at ≡ true)
          × (holds_code code (role_codes db g.role) ≡ true))

pub record HasAccess (db : AccessDb) (company at : ℕ) : Type 0 where
  pub subscription : Subscription
  pub current : get_current_subscription_for_company db.subscriptions company ≡ some subscription
  pub functional : has_functional_access at subscription ≡ true

on_any-grant :
    (db : AccessDb) (m : CompanyMembership) (code at : ℕ)
    → membership_has_permission_on_any_scope db m code at ≡ true
    → (g : MembershipGrant) × Memᴰ g db.grants
      × (g.membership ≡ m.id)
      × (grant_is_current g at ≡ true)
      × (holds_code code (role_codes db g.role) ≡ true)
unfolding membership_has_permission_on_any_scope
on_any-grant db m code at h =
    let (g, mg, e) =
      exists-mem (λ g. grant_is_current g at && holds_code code (role_codes db g.role))
        (active_grants db m) h in
    let (ng, own) = mem-select (λ g. g.membership == m.id && g.is_active) db.grants mg in
    (g, ng, ground (arith, own), ground (arith, e), ground (arith, e))

checked-permitted :
    (db : AccessDb) (m : CompanyMembership) (code at : ℕ) (target : ResourceScope)
    {n : CompanyMembership}
    → check_permission db m code target at ≡ ok n
    → (n ≡ m)
      × (target.company ≡ m.company)
      × ((membership_has_permission db m code target at ≡ true)
          ⊎ ((is_company_scope target.scope_type ≡ true)
              × (membership_has_permission_on_any_scope db m code at ≡ true)))
unfolding check_permission
checked-permitted db m code at target {n} h =
    elim (Bool-cases (membership_has_permission db m code target at)) [
      | inl e ↦ (ground arith, ground arith, inl e)
      | inr e ↦ (ground (arith, e), ground (arith, e), inr (ground (arith, e), ground (arith, e)))
    ]

found-member :
    (db : AccessDb) (u : User) {m : CompanyMembership}
    → get_active_client_membership_or_raise db u ≡ ok m
    → Memᴰ m db.memberships
      × (m.user ≡ u.id)
      × (membership_is_active m.status ≡ true)
      × (u.is_active ≡ true)
      × (is_none u.email_verified_at ≡ false)
      × (user_has_active_platform_role db u ≡ false)
unfolding get_active_client_membership_or_raise
found-member db u {m} h =
    let rows = select (λ m. m.user == u.id && membership_is_active m.status) db.memberships in
    elim (Option-cases (first rows)) [
      | inl n ↦ absurd (ground (arith, n, h))
      | inr (w, l) ↦
          let e : w ≡ m = ground (arith, l, h) in
          let (mw, own) =
            mem-select (λ m. m.user == u.id && membership_is_active m.status) db.memberships
              (mem-first rows (l ∙ ap some e)) in
          (
            mw,
            ground (arith, own),
            ground (arith, own),
            ground (arith, h),
            ground (arith, h),
            ground (arith, h),
          )
    ]

accessible :
    (db : AccessDb) (m : CompanyMembership) (at : ℕ) {s : Subscription}
    → ensure_functional_access db m at ≡ ok s
    → HasAccess db m.company at
unfolding ensure_functional_access
accessible db m at h =
    elim (Option-cases (get_current_subscription_for_company db.subscriptions m.company)) [
      | inl n ↦ absurd (ground (arith, n, h))
      | inr (w, l) ↦ record { subscription = w; current = l; functional = ground (arith, l, h) }
    ]

-- A permission that is required with the check of the subscription is only given to an active user
-- with a verified address and no active, unrevoked role on the platform, for an active membership of
-- that user, at a scope of its company, whose current subscription gives access; and the membership
-- has the permission at that scope, or the scope is the company's and a current grant, at any scope,
-- is of a role with the permission.
pub require_company_permission-IsAuthorized :
    (db : AccessDb) (u : User) (code : ℕ) (scope : Option ResourceScope) (at new_id : ℕ)
    (m : CompanyMembership)
    → require_company_permission db u code scope at true new_id ≡ ok m
    → IsAuthorized db u code scope at new_id m × HasAccess db m.company at
unfolding require_company_permission
require_company_permission-IsAuthorized db u code scope at new_id m h =
    elim (Result-cases (get_active_client_membership_or_raise db u)) [
      | inl (e, c) ↦ absurd (ground (arith, c, h))
      | inr (n, c) ↦ elim (Result-cases (ensure_functional_access db n at)) [
        | inl (e, d) ↦ absurd (ground (arith, c, d, h))
        | inr (s, d) ↦
            let target = target_or_company db n.company new_id scope in
            let (same, own, permitted) =
              checked-permitted db n code at target {n = m} (ground (arith, c, d, h)) in
            let (member, of_user, active, user_active, verified, client) = found-member db u c in
            let there : IsAuthorized db u code scope at new_id n × HasAccess db n.company at = (
              record {
                member = member;
                of_user = of_user;
                membership_active = active;
                user_active = user_active;
                verified = verified;
                client = client;
                own_company = own;
                permitted = elim permitted [
                  | inl e ↦ inl e
                  | inr e ↦
                      let (g, mg, of_m, current, gives) = on_any-grant db n code at e.1 in
                      inr (e.0, g, mg, of_m, current, gives)
                ];
              },
              accessible db n at d,
            ) in
            subst (λ w. IsAuthorized db u code scope at new_id w × HasAccess db w.company at)
              (sym same) there
      ]
    ]
