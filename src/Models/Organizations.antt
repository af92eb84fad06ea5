-- ===== src/Models/Organizations.antt =====
-- apps/organizations/models.py, apps/authorization/services.py: the rows that the modelled services
-- read. Identifiers are UUIDs, which are only compared; instants are microseconds.
use brandy_manager_back.Prelude.{ℕ, Option, Bool, true, false}
use brandy_manager_back.Table.{Row}
use brandy_manager_back.Text.{Text}

pub data SiteStatus : Type 0 where
  active inactive temporarily_closed archived : SiteStatus

pub record Site : Type 0 where
  pub id : ℕ
  pub company : ℕ
  pub name : Text
  pub code : Text
  pub status : SiteStatus
  pub archived_at : Option ℕ

pub data ZoneStatus : Type 0 where
  active inactive suspended archived : ZoneStatus

pub record Zone : Type 0 where
  pub id : ℕ
  pub company : ℕ
  pub site : ℕ
  pub name : Text
  pub code : Text
  pub status : ZoneStatus
  pub archived_at : Option ℕ

pub data ScopeType : Type 0 where
  company organizational_unit site zone resource_group : ScopeType

pub record ResourceScope : Type 0 where
  pub id : ℕ
  pub company : ℕ
  pub scope_type : ScopeType
  pub organizational_unit : Option ℕ
  pub site : Option ℕ
  pub zone : Option ℕ
  pub resource_group : Option ℕ

abbrev pub site_is_archived : SiteStatus → Bool
site_is_archived SiteStatus.archived = true
site_is_archived _ = false

abbrev pub zone_is_archived : ZoneStatus → Bool
zone_is_archived ZoneStatus.archived = true
zone_is_archived _ = false

abbrev pub is_company_scope : ScopeType → Bool
is_company_scope ScopeType.company = true
is_company_scope _ = false

abbrev pub is_site_scope : ScopeType → Bool
is_site_scope ScopeType.site = true
is_site_scope _ = false

abbrev pub is_zone_scope : ScopeType → Bool
is_zone_scope ScopeType.zone = true
is_zone_scope _ = false

instance abbrev pub site_row : Row Site
site_row = record { pk = λ s. s.id }

instance abbrev pub zone_row : Row Zone
zone_row = record { pk = λ z. z.id }

instance abbrev pub scope_row : Row ResourceScope
scope_row = record { pk = λ s. s.id }
