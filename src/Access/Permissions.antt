-- ===== src/Access/Permissions.antt =====
-- The permissions of a membership at a scope (apps/authorization/services.py): those of the roles granted
-- to it, changed by its overrides in the order of their creation. Sets of codes are lists.
use brandy_manager_back.Prelude.{
  ℕ, Option, none, some, List, [], ◌∷◌, ◌++◌, map, Bool, true, false, not, ◌&&◌, ltb, leb, ◌==◌,
  if◌then◌else◌, same_key, select, exists, sort_by,
}
use brandy_manager_back.Table.{get}
use brandy_manager_back.Models.Organizations.{Zone, ResourceScope, ScopeType, zone_row, scope_row}
use brandy_manager_back.Access.Rows.{
  AccessDb, CompanyMembership, MembershipGrant, MembershipPermissionOverride, is_allow,
}

-- `starts_at is None or starts_at <= at`, and `ends_at is None or ends_at > at`
abbrev pub has_started : Option ℕ → ℕ → Bool
has_started none at = true
has_started (some start) at = leb start at

abbrev pub has_not_ended : Option ℕ → ℕ → Bool
has_not_ended none at = true
has_not_ended (some end) at = ltb at end

unfoldable pub grant_is_current : MembershipGrant → ℕ → Bool
grant_is_current g at = g.is_active && (has_started g.starts_at at && has_not_ended g.ends_at at)

-- `target_scope.zone.site_id == grant_scope.site_id`
abbrev pub zone_is_of_site : List Zone → Option ℕ → Option ℕ → Bool
zone_is_of_site zones none site = false
zone_is_of_site zones (some k) site = elim (get k zones) [
  | none ↦ false
  | some z ↦ same_key (some z.site) site
]

unfoldable pub matches_in_company : List Zone → ResourceScope → ResourceScope → Bool
matches_in_company zones grant target = elim grant.scope_type [
  | ScopeType.company ↦ true
  | ScopeType.site ↦ elim target.scope_type [
    | ScopeType.company ↦ false
    | ScopeType.site ↦ same_key grant.site target.site
    | ScopeType.zone ↦ zone_is_of_site zones target.zone grant.site
    | _ ↦ grant.id == target.id
  ]
  | ScopeType.zone ↦ elim target.scope_type [
    | ScopeType.zone ↦ same_key grant.zone target.zone
    | _ ↦ false
  ]
  | _ ↦ elim target.scope_type [ ScopeType.company ↦ false | _ ↦ grant.id == target.id ]
]

unfoldable pub scope_matches : List Zone → ResourceScope → ResourceScope → Bool
unfolding matches_in_company
scope_matches zones grant target =
    grant.company == target.company && matches_in_company zones grant target

-- The row that a grant's foreign key refers to.
abbrev pub grant_applies : AccessDb → ResourceScope → MembershipGrant → Bool
grant_applies db target g = elim (get g.scope db.scopes) [
  | none ↦ false
  | some s ↦ scope_matches db.zones s target
]

abbrev pub role_codes : AccessDb → ℕ → List ℕ
role_codes db role = map (λ p. p.permission) (select (λ p. p.role == role) db.role_permissions)

-- The loop over the grants.
unfoldable pub granted_codes : AccessDb → ResourceScope → ℕ → List MembershipGrant → List ℕ
unfolding grant_is_current scope_matches
granted_codes db target at [] = []
granted_codes db target at (g ∷ gs) =
    let rest = granted_codes db target at gs in
    if grant_is_current g at && grant_applies db target g
    then role_codes db g.role ++ rest
    else rest

-- `codes.discard(code)`
abbrev pub discard : ℕ → List ℕ → List ℕ
discard code codes = select (λ c. not (c == code)) codes

unfoldable pub override_is_current : MembershipPermissionOverride → ℕ → Bool
override_is_current o at = has_started o.starts_at at && has_not_ended o.ends_at at

unfoldable pub apply_override : ℕ → MembershipPermissionOverride → List ℕ → List ℕ
unfolding override_is_current
apply_override at o codes =
    if not (override_is_current o at)
    then codes
    else if is_allow o.effect
    then o.permission ∷ codes
    else discard o.permission codes

-- The loop over the overrides.
unfoldable pub apply_overrides : ℕ → List MembershipPermissionOverride → List ℕ → List ℕ
unfolding apply_override
apply_overrides at [] codes = codes
apply_overrides at (o ∷ os) codes = apply_overrides at os (apply_override at o codes)

abbrev pub created_before : MembershipPermissionOverride → MembershipPermissionOverride → Bool
created_before a b = ltb a.created_at b.created_at

unfoldable pub ordered_overrides :
    AccessDb → CompanyMembership → ResourceScope → List MembershipPermissionOverride
unfolding sort_by
ordered_overrides db m target =
    sort_by created_before (select (λ o. o.membership == m.id && o.scope == target.id) db.overrides)

abbrev pub active_grants : AccessDb → CompanyMembership → List MembershipGrant
active_grants db m = select (λ g. g.membership == m.id && g.is_active) db.grants

unfoldable pub resolve_effective_permissions :
    AccessDb → CompanyMembership → ResourceScope → ℕ → List ℕ
unfolding granted_codes ordered_overrides apply_overrides
resolve_effective_permissions db m target at =
    apply_overrides at (ordered_overrides db m target)
      (granted_codes db target at (active_grants db m))

abbrev pub holds_code : ℕ → List ℕ → Bool
holds_code code codes = exists (λ c. c == code) codes

unfoldable pub membership_has_permission :
    AccessDb → CompanyMembership → ℕ → ResourceScope → ℕ → Bool
unfolding resolve_effective_permissions
membership_has_permission db m code target at =
    holds_code code (resolve_effective_permissions db m target at)

unfoldable pub membership_has_permission_on_any_scope : AccessDb → CompanyMembership → ℕ → ℕ → Bool
unfolding grant_is_current
membership_has_permission_on_any_scope db m code at =
    exists (λ g. grant_is_current g at && holds_code code (role_codes db g.role))
      (active_grants db m)
