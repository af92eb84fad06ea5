-- ===== src/Access/Rows.antt =====
-- The rows that apps/authorization/services.py reads: users, memberships, their grants and overrides, and
-- the permissions of roles. A permission stands for its code, which is unique.
use brandy_manager_back.Prelude.{ℕ, Option, List, Bool, true, false}
use brandy_manager_back.Table.{Row}
use brandy_manager_back.Billing.{Plan, Subscription}
use brandy_manager_back.Models.Organizations.{Zone, ResourceScope}

pub record User : Type 0 where
  pub id : ℕ
  pub is_active : Bool
  pub email_verified_at : Option ℕ

pub record PlatformRole : Type 0 where
  pub id : ℕ
  pub is_active : Bool

pub record UserPlatformRole : Type 0 where
  pub user : ℕ
  pub role : ℕ
  pub revoked_at : Option ℕ

pub data MembershipStatus : Type 0 where
  invited active suspended revoked : MembershipStatus

pub record CompanyMembership : Type 0 where
  pub id : ℕ
  pub company : ℕ
  pub user : ℕ
  pub status : MembershipStatus

pub record CompanyRolePermission : Type 0 where
  pub role : ℕ
  pub permission : ℕ

pub record MembershipGrant : Type 0 where
  pub id : ℕ
  pub membership : ℕ
  pub role : ℕ
  pub scope : ℕ
  pub starts_at : Option ℕ
  pub ends_at : Option ℕ
  pub is_active : Bool

pub data Effect : Type 0 where
  allow deny : Effect

pub record MembershipPermissionOverride : Type 0 where
  pub id : ℕ
  pub membership : ℕ
  pub scope : ℕ
  pub permission : ℕ
  pub effect : Effect
  pub starts_at : Option ℕ
  pub ends_at : Option ℕ
  pub created_at : ℕ

pub record AccessDb : Type 0 where
  pub users : List User
  pub platform_roles : List PlatformRole
  pub user_platform_roles : List UserPlatformRole
  pub memberships : List CompanyMembership
  pub role_permissions : List CompanyRolePermission
  pub grants : List MembershipGrant
  pub overrides : List MembershipPermissionOverride
  pub scopes : List ResourceScope
  pub zones : List Zone
  pub plans : List Plan
  pub subscriptions : List Subscription

abbrev pub membership_is_active : MembershipStatus → Bool
membership_is_active MembershipStatus.active = true
membership_is_active _ = false

abbrev pub is_allow : Effect → Bool
is_allow Effect.allow = true
is_allow Effect.deny = false

instance abbrev pub user_row : Row User
user_row = record { pk = λ u. u.id }

instance abbrev pub platform_role_row : Row PlatformRole
platform_role_row = record { pk = λ r. r.id }

instance abbrev pub membership_row : Row CompanyMembership
membership_row = record { pk = λ m. m.id }
