-- ===== src/Invitations/Tests.antt =====
-- A pending invitation, its acceptance, and instances of the theorems about them.
use brandy_manager_back.Prelude.{
  ◌+◌, ◌≡◌, refl, sym, ap, ◌∙◌, none, some, [], ◌∷◌, true, false, length, mem-singleton,
}
use brandy_manager_back.Text.{upper, upper_char, text_eq}
use brandy_manager_back.Result.{ok, err, invitation_token_invalid}
use brandy_manager_back.Models.Organizations.{ResourceScope, ScopeType}
use brandy_manager_back.Access.Rows.{CompanyMembership, MembershipStatus}
use brandy_manager_back.Invitations.Rows.{
  InvitationDb, InvitationEnv, CompanyInvitation, CompanyRole, RoleCode, Account,
  is_open_invitation, is_expired, is_pending_invitation,
}
use brandy_manager_back.Invitations.Scopes.{resolve_scope_targets, company_target}
use brandy_manager_back.Invitations.Services.{
  same_email, assert_invitable, validate_invitation_for_token,
}
use brandy_manager_back.Invitations.Accept.{
  AcceptKeys, checked_password, prepare_account, insert_membership, granted, join_company,
  accept_company_invitation,
}
use brandy_manager_back.Invitations.Open.{IsInvited}
use brandy_manager_back.Invitations.SingleUse.{
  InvitationRequest, run_invitation, run_invitation-IsInvited, accept-single_use,
}

abbrev env : InvitationEnv
env = record {
  normalize_email = λ text. text;
  is_valid_password = λ text. true;
  hash_password = λ text. length text;
  hash_token = λ text. length text;
  token_ttl = 700;
  resend_cooldown = 2;
}

abbrev invitation : CompanyInvitation
invitation = record {
  id = 1;
  company = 3;
  invited_email = 97 ∷ [];
  first_name = [];
  last_name = [];
  role = 50;
  invited_by = none;
  token_hash = 2;
  expires_at = 700;
  accepted_by = none;
  accepted_at = none;
  cancelled_at = none;
  last_sent_at = some 0;
  site_ids = [];
  zone_ids = [];
}

abbrev role : CompanyRole
role = record { id = 50; company = none; code = RoleCode.viewer; is_active = true }

abbrev whole : ResourceScope
whole = record {
  id = 20;
  company = 3;
  scope_type = ScopeType.company;
  organizational_unit = none;
  site = none;
  zone = none;
  resource_group = none;
}

abbrev db : InvitationDb
db = record {
  plans = [];
  subscriptions = [];
  sites = [];
  zones = [];
  scopes = whole ∷ [];
  roles = role ∷ [];
  accounts = [];
  user_platform_roles = [];
  memberships = [];
  grants = [];
  invitations = invitation ∷ [];
}

abbrev keys : AcceptKeys
keys = record {
  account_id = 60;
  membership_id = 61;
  scope_ids = λ n. 70 + n;
  grant_ids = λ n. 80 + n;
}

abbrev member : CompanyMembership
member = record { id = 61; company = 3; user = 60; status = MembershipStatus.active }

abbrev account : Account
account = record {
  id = 60;
  email = 97 ∷ [];
  first_name = [];
  last_name = [];
  password = some 1;
  is_active = true;
  is_staff = false;
  is_superuser = false;
  email_verified_at = some 100;
}

abbrev accepted : InvitationDb
accepted = record db {
  accounts = account ∷ [];
  memberships = member ∷ [];
  grants =
      record {
        id = 80;
        membership = 61;
        role = 50;
        scope = 20;
        starts_at = none;
        ends_at = none;
        is_active = true;
      }
      ∷ [];
  invitations = record invitation { accepted_by = some 60; accepted_at = some 100 } ∷ [];
}

accept_run :
    accept_company_invitation env (120 ∷ 121 ∷ []) (112 ∷ []) keys 100 db ≡ ok (member, accepted)
unfolding accept_company_invitation validate_invitation_for_token is_pending_invitation
    is_open_invitation is_expired same_email upper upper_char text_eq assert_invitable
    prepare_account checked_password join_company insert_membership resolve_scope_targets
    company_target granted
accept_run = refl

accept_request :
    run_invitation env 100 (InvitationRequest.accept (120 ∷ 121 ∷ []) (112 ∷ []) keys) db
    ≡ ok (tt, accepted)
unfolding run_invitation accept_company_invitation validate_invitation_for_token
    is_pending_invitation is_open_invitation is_expired same_email upper upper_char text_eq
    assert_invitable prepare_account checked_password join_company insert_membership
    resolve_scope_targets company_target granted
accept_request = refl

db-IsInvited : IsInvited db.invitations
db-IsInvited = record {
  keys = λ a b ma mb e. mem-singleton ma ∙ sym (mem-singleton mb);
  one = λ a b ma mb oa ob e f. mem-singleton ma ∙ sym (mem-singleton mb);
}

run_invitation-IsInvited_example : IsInvited accepted.invitations
run_invitation-IsInvited_example =
    run_invitation-IsInvited env 100 (InvitationRequest.accept (120 ∷ 121 ∷ []) (112 ∷ []) keys) db
      accept_request db-IsInvited

accept-single_use_example :
    accept_company_invitation env (120 ∷ 121 ∷ []) (113 ∷ []) keys 200 accepted
    ≡ err invitation_token_invalid
accept-single_use_example =
    accept-single_use env (120 ∷ 121 ∷ []) (112 ∷ []) keys 100 db accept_run
      (λ a b ma mb e. ap (λ v. v.id) (mem-singleton ma ∙ sym (mem-singleton mb))) (113 ∷ []) keys
      200
