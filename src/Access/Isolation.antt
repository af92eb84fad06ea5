-- ===== src/Access/Isolation.antt =====
-- Companies are kept apart (apps/authorization/services.py).
use brandy_manager_back.Prelude.{
  ℕ, ◌≡◌, ◌≢◌, sym, ap, ◌∙◌, some, true, false, ◌&&◌, ◌==◌, arith, inl, inr, All, exists,
  exists-mem, select, mem-select, mem-sort_by, Bool-cases, Option-cases,
}
use brandy_manager_back.Table.{get}
use brandy_manager_back.Models.Organizations.{ResourceScope, scope_row}
use brandy_manager_back.Access.Rows.{AccessDb, CompanyMembership}
use brandy_manager_back.Access.Permissions.{
  scope_matches, ordered_overrides, active_grants, created_before, membership_has_permission,
}
use brandy_manager_back.Access.Overrides.{
  concerns, last, last-mem, is_granted_code, membership_has_permission-decided,
}

-- What `clean` of grants and overrides requires: their scopes are of the company of the membership.
pub record IsWithinCompany (db : AccessDb) (m : CompanyMembership) : Type 0 where
  pub grants :
      All
        (λ g.
          (s : ResourceScope)
          → g.membership ≡ m.id
          → get g.scope db.scopes ≡ some s
          → s.company ≡ m.company)
        db.grants
  pub overrides :
      All
        (λ o.
          (s : ResourceScope)
          → o.membership ≡ m.id
          → get o.scope db.scopes ≡ some s
          → s.company ≡ m.company)
        db.overrides

scope_matches-company :
    (db : AccessDb) (s t : ResourceScope)
    → scope_matches db.zones s t ≡ true
    → s.company ≡ t.company
unfolding scope_matches
scope_matches-company db s t h = ground arith

no_grant :
    (db : AccessDb) (m : CompanyMembership) (code at : ℕ) (target : ResourceScope)
    → IsWithinCompany db m
    → target.company ≢ m.company
    → exists (is_granted_code db target at code) (active_grants db m) ≡ false
no_grant db m code at target w d =
    elim (Bool-cases (exists (is_granted_code db target at code) (active_grants db m))) [
      | inr h ↦ h
      | inl h ↦
          let (g, mg, e) = exists-mem (is_granted_code db target at code) (active_grants db m) h in
          let (ng, own) = mem-select (λ g. g.membership == m.id && g.is_active) db.grants mg in
          elim (Option-cases (get g.scope db.scopes)) [
            | inl n ↦ absurd (ground (arith, e, n))
            | inr (s, l) ↦ absurd (
                d (
                  sym (scope_matches-company db s target (ground (arith, e, l)))
                  ∙ w.grants g ng s (ground (arith, own)) l))
          ]
    ]

-- Where the scopes of its grants and overrides are of its company, a membership has no permission at a
-- stored scope of another company.
pub membership_has_permission-isolated :
    (db : AccessDb) (m : CompanyMembership) (code at : ℕ) (target : ResourceScope)
    → IsWithinCompany db m
    → get target.id db.scopes ≡ some target
    → target.company ≢ m.company
    → membership_has_permission db m code target at ≡ false
unfolding ordered_overrides
membership_has_permission-isolated db m code at target w stored d =
    let rows = select (concerns code at) (ordered_overrides db m target) in
    membership_has_permission-decided db m code target at ∙ elim (Option-cases (last rows)) [
      | inl n ↦ ground (arith, n, no_grant db m code at target w d)
      | inr (o, l) ↦
          let (mo, c) =
            mem-select (concerns code at) (ordered_overrides db m target) (last-mem rows l) in
          let (stored_o, own) =
            mem-select (λ o. o.membership == m.id && o.scope == target.id) db.overrides
              (mem-sort_by created_before
                (select (λ o. o.membership == m.id && o.scope == target.id) db.overrides) mo) in
          let at_target : o.scope ≡ target.id = ground (arith, own) in
          absurd (
            d (
              w.overrides o stored_o target (ground (arith, own))
                (ap (λ k. get k db.scopes) at_target ∙ stored)))
    ]
