-- ===== src/Invitations/Rows.antt =====
-- The rows that invitations read and write (apps/organizations/models.py, apps/users/models.py).
use brandy_manager_back.Prelude.{ℕ, Option, List, Bool, not, ◌&&◌, leb, is_none}
use brandy_manager_back.Table.{Row}
use brandy_manager_back.Text.{Text}
use brandy_manager_back.Transaction.{Transaction}
use brandy_manager_back.Billing.{Plan, Subscription}
use brandy_manager_back.Models.Organizations.{Site, Zone, ResourceScope}
use brandy_manager_back.Access.Rows.{CompanyMembership, MembershipGrant, UserPlatformRole}

-- The codes of the official roles, and any other.
pub data RoleCode : Type 0 where
  owner manager editor_playlists operador_sedes viewer : RoleCode
  other : ℕ → RoleCode

pub record CompanyRole : Type 0 where
  pub id : ℕ
  pub company : Option ℕ
  pub code : RoleCode
  pub is_active : Bool

pub record Account : Type 0 where
  pub id : ℕ
  pub email : Text
  pub first_name : Text
  pub last_name : Text
  pub password : Option ℕ
  pub is_active : Bool
  pub is_staff : Bool
  pub is_superuser : Bool
  pub email_verified_at : Option ℕ

pub record CompanyInvitation : Type 0 where
  pub id : ℕ
  pub company : ℕ
  pub invited_email : Text
  pub first_name : Text
  pub last_name : Text
  pub role : ℕ
  pub invited_by : Option ℕ
  pub token_hash : ℕ
  pub expires_at : ℕ
  pub accepted_by : Option ℕ
  pub accepted_at : Option ℕ
  pub cancelled_at : Option ℕ
  pub last_sent_at : Option ℕ
  pub site_ids : List ℕ
  pub zone_ids : List ℕ

-- Neither accepted nor cancelled.
unfoldable pub is_open_invitation : CompanyInvitation → Bool
is_open_invitation i = is_none i.accepted_at && is_none i.cancelled_at

unfoldable pub is_expired : ℕ → CompanyInvitation → Bool
is_expired at i = leb i.expires_at at

unfoldable pub is_pending_invitation : ℕ → CompanyInvitation → Bool
unfolding is_open_invitation is_expired
is_pending_invitation at i = is_open_invitation i && not (is_expired at i)

pub record InvitationDb : Type 0 where
  pub plans : List Plan
  pub subscriptions : List Subscription
  pub sites : List Site
  pub zones : List Zone
  pub scopes : List ResourceScope
  pub roles : List CompanyRole
  pub accounts : List Account
  pub user_platform_roles : List UserPlatformRole
  pub memberships : List CompanyMembership
  pub grants : List MembershipGrant
  pub invitations : List CompanyInvitation

-- Django's normalization of addresses and checks and hashes of passwords, and the keyed hash of tokens.
pub record InvitationEnv : Type 0 where
  pub normalize_email : Text → Text
  pub is_valid_password : Text → Bool
  pub hash_password : Text → ℕ
  pub hash_token : Text → ℕ
  pub token_ttl : ℕ
  pub resend_cooldown : ℕ

abbrev pub I : Type 0 → Type 0
I A = Transaction InvitationDb A

instance abbrev pub account_row : Row Account
account_row = record { pk = λ a. a.id }

instance abbrev pub invitation_row : Row CompanyInvitation
invitation_row = record { pk = λ i. i.id }

instance abbrev pub role_row : Row CompanyRole
role_row = record { pk = λ r. r.id }
