-- ===== src/Invitations/Scopes.antt =====
-- The role of an invitation and the scopes it is for (apps/organizations/services.py, `_get_role` and
-- `_resolve_scope_targets`). A scope that is missing is created under the next of the keys given.
use brandy_manager_back.Prelude.{
  ℕ, suc, none, some, List, [], ◌∷◌, ◌++◌, Bool, true, false, not, ◌&&◌, ◌||◌, ◌==◌, if◌then◌else◌,
  same_key, is_none, exists, select, length, first,
}
use brandy_manager_back.Result.{Result, ok, err, invalid_role_assignment}
use brandy_manager_back.Table.{get, insert}
use brandy_manager_back.Models.Organizations.{
  Site, SiteStatus, Zone, ZoneStatus, ResourceScope, ScopeType, site_is_archived, is_company_scope,
  is_site_scope, is_zone_scope, site_row, zone_row, scope_row,
}
use brandy_manager_back.Sites.Services.{new_scope}
use brandy_manager_back.Invitations.Rows.{InvitationDb, CompanyRole, RoleCode}

abbrev pub is_official : RoleCode → Bool
is_official (RoleCode.other k) = false
is_official _ = true

abbrev pub is_owner_code : RoleCode → Bool
is_owner_code RoleCode.owner = true
is_owner_code _ = false

abbrev pub same_role_code : RoleCode → RoleCode → Bool
same_role_code RoleCode.owner RoleCode.owner = true
same_role_code RoleCode.manager RoleCode.manager = true
same_role_code RoleCode.editor_playlists RoleCode.editor_playlists = true
same_role_code RoleCode.operador_sedes RoleCode.operador_sedes = true
same_role_code RoleCode.viewer RoleCode.viewer = true
same_role_code (RoleCode.other j) (RoleCode.other k) = j == k
same_role_code _ _ = false

unfoldable pub get_role : List CompanyRole → RoleCode → Result CompanyRole
get_role roles code =
    if is_official code
    then elim (first
        (select (λ r. is_none r.company && (same_role_code r.code code && r.is_active)) roles)) [
          | none ↦ err invalid_role_assignment
          | some r ↦ ok r
        ]
    else err invalid_role_assignment

-- `get_or_create`: the scope, and the table after
abbrev pub get_or_create :
    (ResourceScope → Bool) → ResourceScope → List ResourceScope → ResourceScope × List ResourceScope
get_or_create test fresh scopes = elim (first (select test scopes)) [
  | some s ↦ (s, scopes)
  | none ↦ (fresh, insert fresh scopes)
]

abbrev pub Found : Type 0
Found = Result (List ResourceScope × List ResourceScope)

unfoldable pub company_target : ℕ → ℕ → List ResourceScope → Found
company_target company new_id scopes =
    let (s, after_all) =
      get_or_create (λ s. s.company == company && is_company_scope s.scope_type)
        (new_scope new_id company ScopeType.company none none) scopes in
    ok (s ∷ [], after_all)

unfoldable pub site_targets :
    (ℕ → ℕ) → ℕ → List Site → List ResourceScope → List ResourceScope × List ResourceScope
site_targets fresh n [] scopes = ([], scopes)
site_targets fresh n (t ∷ ts) scopes =
    let (s, scopes1) =
      get_or_create
        (λ s. s.company == t.company && (is_site_scope s.scope_type && same_key s.site (some t.id)))
        (new_scope (fresh n) t.company ScopeType.site (some t.id) none) scopes in
    let (ss, scopes2) = site_targets fresh (suc n) ts scopes1 in (s ∷ ss, scopes2)

unfoldable pub zone_targets :
    (ℕ → ℕ) → ℕ → List Zone → List ResourceScope → List ResourceScope × List ResourceScope
zone_targets fresh n [] scopes = ([], scopes)
zone_targets fresh n (z ∷ zs) scopes =
    let (s, scopes1) =
      get_or_create
        (λ s. s.company == z.company && (is_zone_scope s.scope_type && same_key s.zone (some z.id)))
        (new_scope (fresh n) z.company ScopeType.zone none (some z.id)) scopes in
    let (ss, scopes2) = zone_targets fresh (suc n) zs scopes1 in (s ∷ ss, scopes2)

abbrev pub is_usable_site : SiteStatus → Bool
is_usable_site SiteStatus.active = true
is_usable_site SiteStatus.inactive = true
is_usable_site _ = false

abbrev pub is_usable_zone : ZoneStatus → Bool
is_usable_zone ZoneStatus.archived = false
is_usable_zone _ = true

abbrev pub is_in : ℕ → List ℕ → Bool
is_in k ks = exists (λ j. j == k) ks

-- `set(ids)`
unfoldable pub distinct : List ℕ → List ℕ
distinct [] = []
distinct (k ∷ ks) = let rest = distinct ks in if is_in k ks then rest else k ∷ rest

abbrev pub is_nil : List ℕ → Bool
is_nil [] = true
is_nil (k ∷ ks) = false

unfoldable pub listed_targets :
    InvitationDb → ℕ → List ℕ → List ℕ → (ℕ → ℕ) → List ResourceScope → Found
unfolding company_target site_targets zone_targets distinct
listed_targets db company site_ids zone_ids fresh scopes =
    let sites =
      select (λ s. s.company == company && (is_in s.id site_ids && is_usable_site s.status))
        db.sites in
    let zones =
      select (λ z. z.company == company && (is_in z.id zone_ids && is_usable_zone z.status))
        db.zones in
    let (ss, scopes1) = site_targets fresh 0 sites scopes in
    let (zs, scopes2) = zone_targets fresh (length sites) zones scopes1 in
    if not (length sites == length (distinct site_ids))
      || (not (length zones == length (distinct zone_ids))
          || exists
              (λ z. elim (get z.site db.sites) [
                | none ↦ false
                | some s ↦ site_is_archived s.status
              ])
              zones)
    then err invalid_role_assignment
    else elim (ss ++ zs) [
      | [] ↦ company_target company (fresh 0) scopes2
      | s ∷ rest ↦ ok (s ∷ rest, scopes2)
    ]

unfoldable pub resolve_scope_targets :
    InvitationDb → ℕ → RoleCode → List ℕ → List ℕ → (ℕ → ℕ) → List ResourceScope → Found
unfolding company_target listed_targets
resolve_scope_targets db company RoleCode.owner site_ids zone_ids fresh scopes =
    company_target company (fresh 0) scopes
resolve_scope_targets db company RoleCode.manager site_ids zone_ids fresh scopes =
    company_target company (fresh 0) scopes
resolve_scope_targets db company RoleCode.editor_playlists site_ids zone_ids fresh scopes =
    company_target company (fresh 0) scopes
resolve_scope_targets db company RoleCode.operador_sedes site_ids zone_ids fresh scopes =
    if is_nil site_ids && is_nil zone_ids
    then err invalid_role_assignment
    else listed_targets db company site_ids zone_ids fresh scopes
resolve_scope_targets db company RoleCode.viewer site_ids zone_ids fresh scopes =
    if is_nil site_ids && is_nil zone_ids
    then company_target company (fresh 0) scopes
    else listed_targets db company site_ids zone_ids fresh scopes
resolve_scope_targets db company (RoleCode.other k) site_ids zone_ids fresh scopes =
    listed_targets db company site_ids zone_ids fresh scopes
