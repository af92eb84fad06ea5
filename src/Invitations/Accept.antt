-- ===== src/Invitations/Accept.antt =====
-- Accepting an invitation (apps/organizations/services.py, `accept_company_invitation`): the account, its
-- membership and its grants.
use brandy_manager_back.Prelude.{
  ℕ, suc, Option, none, some, List, [], ◌∷◌, ◌++◌, Bool, true, false, not, ◌||◌, ◌==◌, is_some,
  exists, select, first, or_else,
}
use brandy_manager_back.Text.{Text, or_default}
use brandy_manager_back.Result.{does_not_exist, integrity_error, validation_error}
use brandy_manager_back.Table.{get, save, insert}
use brandy_manager_back.Transaction.{◌>>=◌, ◌>>◌, return, gets, or_raise, modify, raise_if}
use brandy_manager_back.Models.Organizations.{ResourceScope}
use brandy_manager_back.Access.Rows.{
  CompanyMembership, MembershipStatus, MembershipGrant, membership_row,
}
use brandy_manager_back.Invitations.Rows.{
  InvitationEnv, I, CompanyInvitation, Account, account_row, invitation_row, role_row,
}
use brandy_manager_back.Invitations.Scopes.{resolve_scope_targets}
use brandy_manager_back.Invitations.Services.{
  same_email, assert_invitable, on_scopes, validate_invitation_for_token, save_invitation,
}

-- `validate_password` and `set_password`, where a password is sent
unfoldable pub checked_password : InvitationEnv → Text → Option ℕ → I (Option ℕ)
checked_password env [] old = return old
checked_password env (c ∷ cs) old =
    raise_if (not (env.is_valid_password (c ∷ cs))) (validation_error "password")
    >> return (some (env.hash_password (c ∷ cs)))

abbrev pub is_empty_text : Text → Bool
is_empty_text [] = true
is_empty_text (c ∷ cs) = false

-- The account of the address, brought up to date or created.
unfoldable pub prepare_account :
    InvitationEnv → CompanyInvitation → Option Account → Text → ℕ → ℕ → I Account
unfolding checked_password
prepare_account env i none password new_id now =
    raise_if (is_empty_text password) (validation_error "password")
    >> checked_password env password none
    >>= λ hash.
        (let account : Account = record {
          id = new_id;
          email = i.invited_email;
          first_name = i.first_name;
          last_name = i.last_name;
          password = hash;
          is_active = true;
          is_staff = false;
          is_superuser = false;
          email_verified_at = some now;
        } in
          gets (λ db. is_some (get new_id db.accounts)) >>= λ used.
          raise_if used integrity_error
          >> modify (λ db. record db { accounts = insert account db.accounts })
          >> return account)
prepare_account env i (some a) password new_id now =
    checked_password env password a.password >>= λ hash.
    (let account = record a {
      first_name = or_default a.first_name i.first_name;
      last_name = or_default a.last_name i.last_name;
      password = hash;
      is_active = true;
      email_verified_at = some (or_else a.email_verified_at now);
    } in
      modify (λ db. record db { accounts = save account db.accounts }) >> return account)

-- One user belongs to one company.
unfoldable pub insert_membership : CompanyMembership → I (Unit {0})
insert_membership m =
    gets (λ db. is_some (get m.id db.memberships) || exists (λ n. n.user == m.user) db.memberships)
    >>= λ broken.
        raise_if broken integrity_error
        >> modify (λ db. record db { memberships = insert m db.memberships })

unfoldable pub granted :
    ℕ → ℕ → (ℕ → ℕ) → ℕ → List ResourceScope → List MembershipGrant → List MembershipGrant
granted membership role fresh n [] grants = grants
granted membership role fresh n (s ∷ ss) grants = granted membership role fresh (suc n) ss (
    grants
    ++ record {
      id = fresh n;
      membership = membership;
      role = role;
      scope = s.id;
      starts_at = none;
      ends_at = none;
      is_active = true;
    }
      ∷ [])

-- What is drawn: the keys of the rows.
pub record AcceptKeys : Type 0 where
  pub account_id : ℕ
  pub membership_id : ℕ
  pub scope_ids : ℕ → ℕ
  pub grant_ids : ℕ → ℕ

-- The membership and its grants.
unfoldable pub join_company : CompanyInvitation → Account → AcceptKeys → I CompanyMembership
unfolding insert_membership resolve_scope_targets granted
join_company i account keys =
    (let m : CompanyMembership = record {
      id = keys.membership_id;
      company = i.company;
      user = account.id;
      status = MembershipStatus.active;
    } in
      insert_membership m >> gets (λ db. get i.role db.roles) >>= λ found.
      or_raise found does_not_exist >>= λ role.
      on_scopes
        (λ db. resolve_scope_targets db i.company role.code i.site_ids i.zone_ids keys.scope_ids)
      >>= λ scopes.
          modify
            (λ db. record db { grants = granted m.id role.id keys.grant_ids 0 scopes db.grants })
          >> return m)

unfoldable pub accept_company_invitation :
    InvitationEnv → Text → Text → AcceptKeys → ℕ → I CompanyMembership
unfolding validate_invitation_for_token same_email assert_invitable prepare_account join_company
accept_company_invitation env raw_token password keys now =
    validate_invitation_for_token env raw_token now >>= λ i.
    gets (λ db. first (select (λ a. same_email a.email i.invited_email) db.accounts)) >>= λ found.
    assert_invitable found
    >> prepare_account env i found password keys.account_id now
    >>= λ account. join_company i account keys >>= λ m.
        save_invitation (record i { accepted_by = some account.id; accepted_at = some now })
        >> return m
