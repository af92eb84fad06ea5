-- ===== src/Invitations/OneOpen.antt =====
-- One open invitation for an address and a company (apps/organizations/services.py).
use brandy_manager_back.Prelude.{
  ℕ, ◌+◌, ◌≡◌, refl, sym, subst, none, some, true, false, ◌&&◌, arith, inl, inr, exists, select,
  first, Bool-cases, Option-cases,
}
use brandy_manager_back.Text.{Text, upper, text_eq}
use brandy_manager_back.Result.{ok, Result-cases}
use brandy_manager_back.Table.{get, save, insert, mem-get}
use brandy_manager_back.Playlists.Decimal.{text_eq_refl}
use brandy_manager_back.Invitations.Rows.{
  InvitationDb, InvitationEnv, CompanyInvitation, is_open_invitation, is_pending_invitation,
  account_row, invitation_row,
}
use brandy_manager_back.Invitations.Scopes.{get_role, resolve_scope_targets}
use brandy_manager_back.Invitations.Services.{
  InvitationData, same_email, is_for, cancelled, cancel_expired, check_user_seat_limit,
  assert_invitable, insert_invitation, invite_company_member, cancel_invitation, resend_invitation,
  was_just_sent,
}
use brandy_manager_back.Invitations.Open.{
  IsInvited, saved-IsInvited, cancel_expired-IsInvited, none_open, inserted-IsInvited,
}

same_email_lem : (a b : Text) → upper a ≡ upper b → same_email a b ≡ true
unfolding same_email
same_email_lem a b e = subst (λ t. text_eq (upper a) t ≡ true) e (text_eq_refl (upper a))

-- What an accepted invitation says of the tables.
invited :
    (env : InvitationEnv) (company : ℕ) (d : InvitationData) (now : ℕ) (db : InvitationDb)
    {i : CompanyInvitation} {db' : InvitationDb}
    → invite_company_member env company d now db ≡ ok (i, db')
    → (get i.id (cancel_expired now company i.invited_email db.invitations) ≡ none)
      × (exists
            (λ j. is_for company i.invited_email j && is_pending_invitation now j)
            (cancel_expired now company i.invited_email db.invitations)
          ≡ false)
      × (db'.invitations ≡ insert i (cancel_expired now company i.invited_email db.invitations))
      × (i.company ≡ company)
unfolding invite_company_member check_user_seat_limit insert_invitation assert_invitable
invited env company d now db {i} {db'} h =
    let email = env.normalize_email d.email in
    let db1 : InvitationDb = record db {
      invitations = cancel_expired now company email db.invitations;
    } in
    elim (Result-cases (get_role db.roles d.role_code)) [
      | inl (e, r) ↦ absurd (ground (arith, h, r))
      | inr (role, r) ↦
          elim (Result-cases (
            resolve_scope_targets db1 company d.role_code d.site_ids d.zone_ids d.fresh
              db.scopes)) [
                | inl (e, t) ↦ absurd (ground (arith, h, r, t))
                | inr (scopes, t) ↦
                    elim (Option-cases
                      (first (select (λ a. same_email a.email email) db.accounts))) [
                        | inl n ↦ (
                          ground (arith, h, r, t, n),
                          ground (arith, h, r, t, n),
                          ground (arith, h, r, t, n),
                          ground (arith, h, r, t, n),
                        )
                        | inr (a, l) ↦ (
                          ground (arith, h, r, t, l),
                          ground (arith, h, r, t, l),
                          ground (arith, h, r, t, l),
                          ground (arith, h, r, t, l),
                        )
                      ]
              ]
    ]

pub invite-IsInvited :
    (env : InvitationEnv) (company : ℕ) (d : InvitationData) (now : ℕ) (db : InvitationDb)
    {i : CompanyInvitation} {db' : InvitationDb}
    → invite_company_member env company d now db ≡ ok (i, db')
    → IsInvited db.invitations
    → IsInvited db'.invitations
invite-IsInvited env company d now db {i} {db'} h w =
    let (fresh, quiet, q, c) = invited env company d now db h in
    let mid = cancel_expired now company i.invited_email db.invitations in
    subst IsInvited (sym q) (
      inserted-IsInvited mid i fresh
        (λ z m o f g.
          none_open now company i.invited_email db.invitations quiet z m o
            (ground (arith, f, c, same_email_lem z.invited_email i.invited_email g)))
        (cancel_expired-IsInvited now company i.invited_email db.invitations w))

pub cancel-IsInvited :
    (k now : ℕ) (db : InvitationDb) {i : CompanyInvitation} {db' : InvitationDb}
    → cancel_invitation k now db ≡ ok (i, db')
    → IsInvited db.invitations
    → IsInvited db'.invitations
unfolding cancel_invitation is_open_invitation
cancel-IsInvited k now db {i} {db'} h w = elim (Option-cases (get k db.invitations)) [
  | inl n ↦ absurd (ground (arith, h, n))
  | inr (old, l) ↦
      let q : db'.invitations ≡ save (cancelled now old) db.invitations = ground (arith, l) in
      subst IsInvited (sym q) (
        saved-IsInvited db.invitations old (cancelled now old) (mem-get k db.invitations l) refl
          refl refl (λ o. absurd (ground (arith, o))) w)
]

pub resend-IsInvited :
    (env : InvitationEnv) (k : ℕ) (raw_token : Text) (now : ℕ) (db : InvitationDb)
    {i : CompanyInvitation} {db' : InvitationDb}
    → resend_invitation env k raw_token now db ≡ ok (i, db')
    → IsInvited db.invitations
    → IsInvited db'.invitations
unfolding resend_invitation is_open_invitation
resend-IsInvited env k raw_token now db {i} {db'} h w = elim (Option-cases (get k db.invitations)) [
  | inl n ↦ absurd (ground (arith, h, n))
  | inr (old, l) ↦ elim (Bool-cases (was_just_sent env now old.last_sent_at)) [
    | inl e ↦
        let q : db'.invitations ≡ db.invitations = ground (arith, l, e) in subst IsInvited (sym q) w
    | inr e ↦
        let renewed = record old {
          token_hash = env.hash_token raw_token;
          expires_at = now + env.token_ttl;
          last_sent_at = some now;
        } in
        let q : db'.invitations ≡ save renewed db.invitations = ground (arith, l, e) in
        subst IsInvited (sym q) (
          saved-IsInvited db.invitations old renewed (mem-get k db.invitations l) refl refl refl
            (λ o. o) w)
  ]
]
