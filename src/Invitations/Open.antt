-- ===== src/Invitations/Open.antt =====
-- Tables of invitations with one open invitation for an address, and what keeps them so.
use brandy_manager_back.Prelude.{
  ℕ, ◌≡◌, ◌≢◌, refl, sym, ap, ◌∙◌, none, List, [], ◌∷◌, Bool, true, false, ◌&&◌, arith, inl, inr,
  Memᴰ, exists, exists-false, mem-append, mem-singleton, Bool-cases,
}
use brandy_manager_back.Text.{Text, upper}
use brandy_manager_back.Table.{
  get, save, insert, HasUniqueKeys, mem-save, mem-update, save-HasUniqueKeys, insert-HasUniqueKeys,
  update-HasUniqueKeys,
}
use brandy_manager_back.Invitations.Rows.{
  CompanyInvitation, is_open_invitation, is_expired, is_pending_invitation, account_row,
  invitation_row,
}
use brandy_manager_back.Invitations.Services.{is_for, cancelled, cancel_expired}

-- Two open invitations of a company for one address, in capitals or not, are the same.
abbrev pub HasOneInvitation : List CompanyInvitation → Type 0
HasOneInvitation xs =
    (a b : CompanyInvitation)
    → Memᴰ a xs
    → Memᴰ b xs
    → is_open_invitation a ≡ true
    → is_open_invitation b ≡ true
    → a.company ≡ b.company
    → upper a.invited_email ≡ upper b.invited_email
    → a ≡ b

pub record IsInvited (xs : List CompanyInvitation) : Type 0 where
  pub keys : HasUniqueKeys xs
  pub one : HasOneInvitation xs

pub saved-IsInvited :
    (xs : List CompanyInvitation) (old i : CompanyInvitation)
    → Memᴰ old xs
    → i.id ≡ old.id
    → i.company ≡ old.company
    → i.invited_email ≡ old.invited_email
    → (is_open_invitation i ≡ true → is_open_invitation old ≡ true)
    → IsInvited xs
    → IsInvited (save i xs)
saved-IsInvited xs old i m e c a opened w =
    let other : (z : CompanyInvitation)
        → Memᴰ z xs
        → z.id ≢ i.id
        → is_open_invitation z ≡ true
        → is_open_invitation i ≡ true
        → i.company ≡ z.company
        → upper i.invited_email ≡ upper z.invited_email
        → ⊥ =
      λ z mz d oz oi f g. d (
        ap (λ v. v.id) (sym (w.one old z m mz (opened oi) oz (sym c ∙ f) (ap upper (sym a) ∙ g)))
        ∙ sym e) in
    record {
      keys = save-HasUniqueKeys i xs w.keys;
      one = λ x y mx my ox oy f g. elim (mem-save i xs mx) [
        | inl p ↦ elim (mem-save i xs my) [
          | inl q ↦ p ∙ sym q
          | inr (ny, dy) ↦ absurd (
              other y ny dy oy (ap is_open_invitation (sym p) ∙ ox)
                (ap (λ v. v.company) (sym p) ∙ f) (ap (λ v. upper v.invited_email) (sym p) ∙ g))
        ]
        | inr (nx, dx) ↦ elim (mem-save i xs my) [
          | inl q ↦ absurd (
              other x nx dx ox (ap is_open_invitation (sym q) ∙ oy)
                (ap (λ v. v.company) (sym q) ∙ sym f)
                (ap (λ v. upper v.invited_email) (sym q) ∙ sym g))
          | inr (ny, dy) ↦ w.one x y nx ny ox oy f g
        ]
      ];
    }

-- Cancelling rows opens none.
pub cancel_expired-IsInvited :
    (now company : ℕ) (email : Text) (xs : List CompanyInvitation)
    → IsInvited xs
    → IsInvited (cancel_expired now company email xs)
unfolding cancel_expired is_open_invitation
cancel_expired-IsInvited now company email xs w =
    let p : CompanyInvitation → Bool =
      λ i. is_for company email i && (is_open_invitation i && is_expired now i) in
    record {
      keys = update-HasUniqueKeys p (cancelled now) xs (λ i. refl) w.keys;
      one = λ x y mx my ox oy f g.
          let (a, ma, qa) = mem-update p (cancelled now) xs mx in
          let (b, mb, qb) = mem-update p (cancelled now) xs my in
          elim (Bool-cases (p a)) [
            | inl h ↦ absurd (ground (arith, ox, ap (λ v. v.cancelled_at) qa, h))
            | inr h ↦ elim (Bool-cases (p b)) [
              | inl k ↦ absurd (ground (arith, oy, ap (λ v. v.cancelled_at) qb, k))
              | inr k ↦
                  let ea : x ≡ a = ground (arith, qa, h) in
                  let eb : y ≡ b = ground (arith, qb, k) in
                  ea
                  ∙ w.one a b ma mb (ap is_open_invitation (sym ea) ∙ ox)
                      (ap is_open_invitation (sym eb) ∙ oy)
                      (ap (λ v. v.company) (sym ea) ∙ f ∙ ap (λ v. v.company) eb)
                      (ap (λ v. upper v.invited_email) (sym ea)
                        ∙ g
                        ∙ ap (λ v. upper v.invited_email) eb)
                  ∙ sym eb
            ]
          ];
    }

-- Nothing open for the address is left once nothing is pending.
pub none_open :
    (now company : ℕ) (email : Text) (xs : List CompanyInvitation)
    → exists
        (λ i. is_for company email i && is_pending_invitation now i)
        (cancel_expired now company email xs)
      ≡ false
    → (z : CompanyInvitation) → Memᴰ z (cancel_expired now company email xs)
    → is_open_invitation z ≡ true
    → is_for company email z ≡ true
    → ⊥
unfolding cancel_expired is_pending_invitation is_open_invitation is_expired
none_open now company email xs h z m o f =
    let p : CompanyInvitation → Bool =
      λ i. is_for company email i && (is_open_invitation i && is_expired now i) in
    let (a, ma, qa) = mem-update p (cancelled now) xs m in
    let quiet =
      exists-false (λ i. is_for company email i && is_pending_invitation now i)
        (cancel_expired now company email xs) h z m in
    elim (Bool-cases (p a)) [
      | inl k ↦ ground (arith, o, ap (λ v. v.cancelled_at) qa, k)
      | inr k ↦
          let e : z ≡ a = ground (arith, qa, k) in
          let still : p z ≡ false = ap p e ∙ k in ground (arith, still, quiet, o, f)
    ]

pub inserted-IsInvited :
    (xs : List CompanyInvitation) (i : CompanyInvitation)
    → get i.id xs ≡ none
    → ((z : CompanyInvitation)
        → Memᴰ z xs
        → is_open_invitation z ≡ true
        → z.company ≡ i.company
        → upper z.invited_email ≡ upper i.invited_email
        → ⊥)
    → IsInvited xs
    → IsInvited (insert i xs)
inserted-IsInvited xs i fresh alone w = record {
  keys = insert-HasUniqueKeys i xs w.keys fresh;
  one = λ x y mx my ox oy f g. elim (mem-append xs (i ∷ []) mx) [
    | inl nx ↦ elim (mem-append xs (i ∷ []) my) [
      | inl ny ↦ w.one x y nx ny ox oy f g
      | inr qy ↦
          let e = mem-singleton qy in
          absurd (alone x nx ox (f ∙ ap (λ v. v.company) e) (g ∙ ap (λ v. upper v.invited_email) e))
    ]
    | inr qx ↦ elim (mem-append xs (i ∷ []) my) [
      | inl ny ↦
          let e = mem-singleton qx in
          absurd (
            alone y ny oy (sym f ∙ ap (λ v. v.company) e)
              (sym g ∙ ap (λ v. upper v.invited_email) e))
      | inr qy ↦ mem-singleton qx ∙ sym (mem-singleton qy)
    ]
  ];
}
