-- ===== src/Invitations/Services.antt =====
-- Inviting, accepting, cancelling and sending again (apps/organizations/services.py). The row of the company
-- is only locked; the mail is sent after the commit.
use brandy_manager_back.Prelude.{
  ℕ, ◌+◌, Option, none, some, List, Bool, true, false, not, ◌&&◌, ◌||◌, ltb, ◌==◌, if◌then◌else◌,
  is_none, is_some, exists, select, length, first,
}
use brandy_manager_back.Text.{Text, upper, text_eq}
use brandy_manager_back.Result.{
  ok, err, does_not_exist, integrity_error, plan_limit_reached, invitation_conflict,
  invitation_token_invalid, invalid_role_assignment,
}
use brandy_manager_back.Table.{get, save, insert, update}
use brandy_manager_back.Transaction.{◌>>=◌, ◌>>◌, return, gets, or_raise, inspect, modify, raise_if}
use brandy_manager_back.Billing.{reaches, LimitKey, company_limit}
use brandy_manager_back.Models.Organizations.{ResourceScope}
use brandy_manager_back.Access.Rows.{MembershipStatus}
use brandy_manager_back.Invitations.Rows.{
  InvitationDb, InvitationEnv, I, CompanyInvitation, RoleCode, Account, is_open_invitation,
  is_expired, is_pending_invitation, account_row, invitation_row,
}
use brandy_manager_back.Invitations.Scopes.{is_owner_code, get_role, Found, resolve_scope_targets}

-- `email__iexact`
unfoldable pub same_email : Text → Text → Bool
unfolding upper text_eq
same_email a b = text_eq (upper a) (upper b)

abbrev pub is_revoked_membership : MembershipStatus → Bool
is_revoked_membership MembershipStatus.revoked = true
is_revoked_membership _ = false

-- Members that are not revoked, and pending invitations
unfoldable pub seats_taken : ℕ → ℕ → InvitationDb → ℕ
unfolding is_pending_invitation
seats_taken company now db =
    length
      (select (λ m. m.company == company && not (is_revoked_membership m.status)) db.memberships)
    + length (select (λ i. i.company == company && is_pending_invitation now i) db.invitations)

unfoldable pub check_user_seat_limit : ℕ → ℕ → I (Unit {0})
unfolding seats_taken company_limit
check_user_seat_limit company now =
    gets (λ db.
      reaches (seats_taken company now db)
        (company_limit LimitKey.users db.plans db.subscriptions company))
    >>= λ full. raise_if full plan_limit_reached

-- The checks on an account with the address, if there is one.
unfoldable pub assert_invitable : Option Account → I (Unit {0})
assert_invitable none = return tt
assert_invitable (some a) =
    gets (λ db. exists (λ r. r.user == a.id && is_none r.revoked_at) db.user_platform_roles)
    >>= λ platform.
        raise_if (a.is_staff || (a.is_superuser || platform)) invalid_role_assignment
        >> gets (λ db. exists (λ m. m.user == a.id) db.memberships)
        >>= λ belongs. raise_if belongs invitation_conflict

abbrev pub is_for : ℕ → Text → CompanyInvitation → Bool
is_for company email i = i.company == company && same_email i.invited_email email

abbrev pub cancelled : ℕ → CompanyInvitation → CompanyInvitation
cancelled now i = record i { cancelled_at = some now }

-- Expired invitations of the address are cancelled.
unfoldable pub cancel_expired : ℕ → ℕ → Text → List CompanyInvitation → List CompanyInvitation
unfolding same_email is_open_invitation is_expired
cancel_expired now company email invitations =
    update (λ i. is_for company email i && (is_open_invitation i && is_expired now i))
      (cancelled now) invitations

abbrev pub on_scopes : (InvitationDb → List ResourceScope → Found) → I (List ResourceScope)
on_scopes f db = elim (f db db.scopes) [
  | err e ↦ err e
  | ok r ↦ ok (r.0, record db { scopes = r.1 })
]

-- A token whose hash is stored, or an open invitation of the company for that very address, breaks a
-- constraint.
unfoldable pub insert_invitation : CompanyInvitation → I CompanyInvitation
unfolding is_open_invitation text_eq
insert_invitation i =
    gets (λ db.
      is_some (get i.id db.invitations)
      || exists
          (λ j.
            j.token_hash == i.token_hash
            || is_open_invitation j
              && (j.company == i.company && text_eq j.invited_email i.invited_email))
          db.invitations)
    >>= λ broken.
        raise_if broken integrity_error
        >> modify (λ db. record db { invitations = insert i db.invitations })
        >> return i

-- The body of the request, and what is drawn: the token and keys.
pub record InvitationData : Type 0 where
  pub email : Text
  pub first_name : Text
  pub last_name : Text
  pub role_code : RoleCode
  pub invited_by : Option ℕ
  pub site_ids : List ℕ
  pub zone_ids : List ℕ
  pub raw_token : Text
  pub new_id : ℕ
  pub fresh : ℕ → ℕ

unfoldable pub invite_company_member : InvitationEnv → ℕ → InvitationData → ℕ → I CompanyInvitation
unfolding check_user_seat_limit same_email assert_invitable cancel_expired is_pending_invitation
    get_role resolve_scope_targets insert_invitation
invite_company_member env company d now =
    raise_if (is_owner_code d.role_code) invalid_role_assignment
    >> check_user_seat_limit company now
    >> (let email = env.normalize_email d.email in
        gets (λ db. first (select (λ a. same_email a.email email) db.accounts)) >>= λ account.
        assert_invitable account
        >> modify
            (λ db. record db { invitations = cancel_expired now company email db.invitations })
        >> gets (λ db.
          exists (λ i. is_for company email i && is_pending_invitation now i) db.invitations)
        >>= λ waiting.
            raise_if waiting invitation_conflict
            >> inspect (λ db. get_role db.roles d.role_code)
            >>= λ role.
                on_scopes
                  (λ db. resolve_scope_targets db company d.role_code d.site_ids d.zone_ids d.fresh)
                >> insert_invitation (record {
                  id = d.new_id;
                  company = company;
                  invited_email = email;
                  first_name = d.first_name;
                  last_name = d.last_name;
                  role = role.id;
                  invited_by = d.invited_by;
                  token_hash = env.hash_token d.raw_token;
                  expires_at = now + env.token_ttl;
                  accepted_by = none;
                  accepted_at = none;
                  cancelled_at = none;
                  last_sent_at = some now;
                  site_ids = d.site_ids;
                  zone_ids = d.zone_ids;
                }))

unfoldable pub validate_invitation_for_token : InvitationEnv → Text → ℕ → I CompanyInvitation
unfolding is_pending_invitation
validate_invitation_for_token env raw_token now =
    gets (λ db. first (select (λ i. i.token_hash == env.hash_token raw_token) db.invitations))
    >>= λ found. or_raise found invitation_token_invalid >>= λ i.
        raise_if (not (is_pending_invitation now i)) invitation_token_invalid >> return i

abbrev pub load_invitation : ℕ → I CompanyInvitation
load_invitation k = gets (λ db. get k db.invitations) >>= λ found. or_raise found does_not_exist

abbrev pub save_invitation : CompanyInvitation → I CompanyInvitation
save_invitation i = modify (λ db. record db { invitations = save i db.invitations }) >> return i

unfoldable pub cancel_invitation : ℕ → ℕ → I CompanyInvitation
unfolding is_pending_invitation
cancel_invitation k now = load_invitation k >>= λ i.
    raise_if (not (is_pending_invitation now i)) invitation_conflict
    >> save_invitation (cancelled now i)

-- `last_sent_at and last_sent_at > now - COOLDOWN`
abbrev pub was_just_sent : InvitationEnv → ℕ → Option ℕ → Bool
was_just_sent env now none = false
was_just_sent env now (some sent) = ltb now (sent + env.resend_cooldown)

unfoldable pub resend_invitation : InvitationEnv → ℕ → Text → ℕ → I CompanyInvitation
unfolding is_pending_invitation
resend_invitation env k raw_token now = load_invitation k >>= λ i.
    raise_if (not (is_pending_invitation now i)) invitation_conflict
    >> (if was_just_sent env now i.last_sent_at
        then return i
        else gets (λ db.
          exists (λ j. j.token_hash == env.hash_token raw_token && not (j.id == k)) db.invitations)
          >>= λ broken.
              raise_if broken integrity_error
              >> save_invitation (record i {
                token_hash = env.hash_token raw_token;
                expires_at = now + env.token_ttl;
                last_sent_at = some now;
              }))
