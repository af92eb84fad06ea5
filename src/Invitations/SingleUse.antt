-- ===== src/Invitations/SingleUse.antt =====
-- An invitation is accepted once (apps/organizations/services.py), and all requests keep one open invitation
-- for an address.
use brandy_manager_back.Prelude.{
  ℕ, ◌≡◌, refl, sym, ap, ◌∙◌, subst, Option, none, some, List, [], ◌∷◌, Bool, ◌==◌, arith, inl, inr,
  Memᴰ, select, first, mem-select, mem-first, Option-cases,
}
use brandy_manager_back.Text.{Text}
use brandy_manager_back.Result.{ok, err, Result-cases, invitation_token_invalid}
use brandy_manager_back.Table.{get, save, insert, mem-save}
use brandy_manager_back.Transaction.{◌>>◌, return, ran}
use brandy_manager_back.Access.Rows.{CompanyMembership, MembershipStatus, membership_row}
use brandy_manager_back.Invitations.Rows.{
  InvitationDb, InvitationEnv, I, CompanyInvitation, Account, is_open_invitation,
  is_pending_invitation, account_row, invitation_row, role_row,
}
use brandy_manager_back.Invitations.Scopes.{resolve_scope_targets}
use brandy_manager_back.Invitations.Services.{
  InvitationData, same_email, assert_invitable, invite_company_member,
  validate_invitation_for_token, cancel_invitation, resend_invitation,
}
use brandy_manager_back.Invitations.Accept.{
  AcceptKeys, checked_password, prepare_account, insert_membership, join_company,
  accept_company_invitation,
}
use brandy_manager_back.Invitations.Open.{IsInvited, saved-IsInvited}
use brandy_manager_back.Invitations.OneOpen.{invite-IsInvited, cancel-IsInvited, resend-IsInvited}

prepare_account-frame :
    (env : InvitationEnv) (i : CompanyInvitation) (found : Option Account) (password : Text)
    (new_id now : ℕ) (db : InvitationDb) {a : Account} {db' : InvitationDb}
    → prepare_account env i found password new_id now db ≡ ok (a, db')
    → db'.invitations ≡ db.invitations
unfolding prepare_account checked_password
prepare_account-frame env i none [] new_id now db h = absurd (ground arith)
prepare_account-frame env i none (c ∷ cs) new_id now db h = ground arith
prepare_account-frame env i (some b) [] new_id now db h = ground arith
prepare_account-frame env i (some b) (c ∷ cs) new_id now db h = ground arith

join_company-frame :
    (i : CompanyInvitation) (account : Account) (keys : AcceptKeys) (db : InvitationDb)
    {m : CompanyMembership} {db' : InvitationDb}
    → join_company i account keys db ≡ ok (m, db')
    → db'.invitations ≡ db.invitations
unfolding join_company insert_membership
join_company-frame i account keys db {m} h = elim (Option-cases (get i.role db.roles)) [
  | inl n ↦ absurd (ground (arith, h, n))
  | inr (role, l) ↦
      let joined : CompanyMembership = record {
        id = keys.membership_id;
        company = i.company;
        user = account.id;
        status = MembershipStatus.active;
      } in
      let db1 : InvitationDb = record db { memberships = insert joined db.memberships } in
      elim (Result-cases (
        resolve_scope_targets db1 i.company role.code i.site_ids i.zone_ids keys.scope_ids
          db.scopes)) [
            | inl (e, r) ↦ absurd (ground (arith, h, l, r))
            | inr (t, r) ↦ ground (arith, h, l, r)
          ]
]

assert_invitable-frame :
    (found : Option Account) (db : InvitationDb) {u : Unit {0}} {db' : InvitationDb}
    → assert_invitable found db ≡ ok (u, db')
    → db'.invitations ≡ db.invitations
unfolding assert_invitable
assert_invitable-frame none db h = ground arith
assert_invitable-frame (some a) db h = ground arith

abbrev accepted : ℕ → ℕ → CompanyInvitation → CompanyInvitation
accepted account now i = record i { accepted_by = some account; accepted_at = some now }

-- The row that a token finds.
abbrev by_token : InvitationEnv → Text → List CompanyInvitation → Option CompanyInvitation
by_token env raw_token xs = first (select (λ i. i.token_hash == env.hash_token raw_token) xs)

-- What an acceptance does to the invitations.
accept-saved :
    (env : InvitationEnv) (raw_token password : Text) (keys : AcceptKeys) (now : ℕ)
    (db : InvitationDb) {m : CompanyMembership} {db' : InvitationDb}
    → accept_company_invitation env raw_token password keys now db ≡ ok (m, db')
    → (i : CompanyInvitation) × (account : ℕ) × (by_token env raw_token db.invitations ≡ some i)
      × (db'.invitations ≡ save (accepted account now i) db.invitations)
unfolding accept_company_invitation validate_invitation_for_token
accept-saved env raw_token password keys now db {m} {db'} h =
    elim (Option-cases (by_token env raw_token db.invitations)) [
      | inl n ↦ absurd (ground (arith, h, n))
      | inr (i, l) ↦
          let found = first (select (λ a. same_email a.email i.invited_email) db.accounts) in
          elim (Result-cases (assert_invitable found db)) [
            | inl (e, c) ↦ absurd (ground (arith, h, l, c))
            | inr ((u, db1), c) ↦
                elim (Result-cases (prepare_account env i found password keys.account_id now db1)) [
                  | inl (e, r) ↦ absurd (ground (arith, h, l, c, r))
                  | inr ((account, db2), r) ↦
                      elim (Result-cases (join_company i account keys db2)) [
                        | inl (e, j) ↦ absurd (ground (arith, h, l, c, r, j))
                        | inr ((n, db3), j) ↦
                            let s1 : db1.invitations ≡ db.invitations =
                              assert_invitable-frame found db c in
                            let s2 =
                              prepare_account-frame env i found password keys.account_id now db1
                                r in
                            let s3 = join_company-frame i account keys db2 j in
                            let q : db'.invitations
                                ≡ save (accepted account.id now i) db3.invitations =
                              ground (arith, h, l, c, r, j) in
                            (
                              i,
                              account.id,
                              l,
                              q ∙ ap (save (accepted account.id now i)) (s3 ∙ s2 ∙ s1),
                            )
                      ]
                ]
          ]
    ]

accept-IsInvited :
    (env : InvitationEnv) (raw_token password : Text) (keys : AcceptKeys) (now : ℕ)
    (db : InvitationDb) {m : CompanyMembership} {db' : InvitationDb}
    → accept_company_invitation env raw_token password keys now db ≡ ok (m, db')
    → IsInvited db.invitations
    → IsInvited db'.invitations
unfolding is_open_invitation
accept-IsInvited env raw_token password keys now db h w =
    let (i, account, l, q) = accept-saved env raw_token password keys now db h in
    let (mi, e) =
      mem-select (λ i. i.token_hash == env.hash_token raw_token) db.invitations
        (mem-first (select (λ i. i.token_hash == env.hash_token raw_token) db.invitations) l) in
    subst IsInvited (sym q) (
      saved-IsInvited db.invitations i (accepted account now i) mi refl refl refl
        (λ o. absurd (ground (arith, o))) w)

pub data InvitationRequest : Type 0 where
  invite : ℕ → InvitationData → InvitationRequest
  accept : Text → Text → AcceptKeys → InvitationRequest
  cancel : ℕ → InvitationRequest
  resend : ℕ → Text → InvitationRequest

unfoldable pub run_invitation : InvitationEnv → ℕ → InvitationRequest → I (Unit {0})
unfolding invite_company_member accept_company_invitation cancel_invitation resend_invitation
run_invitation env now (InvitationRequest.invite c d) =
    invite_company_member env c d now >> return tt
run_invitation env now (InvitationRequest.accept t p keys) =
    accept_company_invitation env t p keys now >> return tt
run_invitation env now (InvitationRequest.cancel k) = cancel_invitation k now >> return tt
run_invitation env now (InvitationRequest.resend k t) = resend_invitation env k t now >> return tt

-- Every accepted request on invitations keeps this: invitations have different keys, and a company has at most
-- one invitation for an address, in capitals or not, that is neither accepted nor cancelled, expired ones
-- counted.
pub run_invitation-IsInvited :
    (env : InvitationEnv) (now : ℕ) (r : InvitationRequest) (db : InvitationDb) {u : Unit {0}}
    {db' : InvitationDb}
    → run_invitation env now r db ≡ ok (u, db')
    → IsInvited db.invitations
    → IsInvited db'.invitations
unfolding run_invitation
run_invitation-IsInvited env now (InvitationRequest.invite c d) db h =
    invite-IsInvited env c d now db (ran (invite_company_member env c d now) {db = db} h).1
run_invitation-IsInvited env now (InvitationRequest.accept t p keys) db h =
    accept-IsInvited env t p keys now db
      (ran (accept_company_invitation env t p keys now) {db = db} h).1
run_invitation-IsInvited env now (InvitationRequest.cancel k) db h =
    cancel-IsInvited k now db (ran (cancel_invitation k now) {db = db} h).1
run_invitation-IsInvited env now (InvitationRequest.resend k t) db h =
    resend-IsInvited env k t now db (ran (resend_invitation env k t now) {db = db} h).1

-- Where invitations have different hashes of tokens, a token that was accepted is refused, at any instant, in
-- the database that its acceptance leaves.
pub accept-single_use :
    (env : InvitationEnv) (raw_token password : Text) (keys : AcceptKeys) (now : ℕ)
    (db : InvitationDb) {m : CompanyMembership} {db' : InvitationDb}
    → accept_company_invitation env raw_token password keys now db ≡ ok (m, db')
    → ((a b : CompanyInvitation)
        → Memᴰ a db.invitations
        → Memᴰ b db.invitations
        → a.token_hash ≡ b.token_hash
        → a.id ≡ b.id)
    → (password2 : Text) (keys2 : AcceptKeys) (later : ℕ)
    → accept_company_invitation env raw_token password2 keys2 later db'
      ≡ err invitation_token_invalid
unfolding accept_company_invitation validate_invitation_for_token is_pending_invitation
    is_open_invitation
accept-single_use env raw_token password keys now db {m} {db'} h unique password2 keys2 later =
    let (i, account, l, q) = accept-saved env raw_token password keys now db h in
    let test : CompanyInvitation → Bool = λ i. i.token_hash == env.hash_token raw_token in
    let (mi, e) = mem-select test db.invitations (mem-first (select test db.invitations) l) in
    elim (Option-cases (by_token env raw_token db'.invitations)) [
      | inl n ↦ ground (arith, n)
      | inr (j, g) ↦
          let (mj, f) =
            mem-select test db'.invitations (mem-first (select test db'.invitations) g) in
          elim (mem-save (accepted account now i) db.invitations (subst (Memᴰ j) q mj)) [
            | inl p ↦ ground (arith, g, ap (λ v. v.accepted_at) p)
            | inr (nj, d) ↦ absurd (d (unique j i nj mi (ground (arith, e, f))))
          ]
    ]
