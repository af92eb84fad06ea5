-- ===== src/Access/Overrides.antt =====
-- Which override decides (apps/authorization/services.py, `resolve_effective_permissions`).
use brandy_manager_back.Prelude.{
  ℕ, ◌<◌, ◌≡◌, refl, sym, ap, ◌∙◌, subst, Option, none, some, List, [], ◌∷◌, ◌++◌, Bool, true,
  false, not, ◌&&◌, ◌||◌, ◌==◌, if◌then◌else◌, arith, inl, inr, Memᴰ, exists, select, mem-select,
  select-mem, IsSorted, IsKeyOrder, sort_by-IsSorted, Bool-cases, Option-cases,
}
use brandy_manager_back.Models.Organizations.{ResourceScope}
use brandy_manager_back.Access.Rows.{
  AccessDb, CompanyMembership, MembershipGrant, MembershipPermissionOverride, is_allow,
}
use brandy_manager_back.Access.Permissions.{
  grant_is_current, grant_applies, role_codes, granted_codes, discard, override_is_current,
  apply_override, apply_overrides, created_before, ordered_overrides, active_grants,
  resolve_effective_permissions, holds_code, membership_has_permission,
}

abbrev pub last : {A : Type 0} → List A → Option A
last [] = none
last (x ∷ xs) = elim (last xs) [ none ↦ some x | some y ↦ some y ]

-- The override is in force, and of this permission.
abbrev pub concerns : ℕ → ℕ → MembershipPermissionOverride → Bool
concerns code at o = override_is_current o at && o.permission == code

-- The last override decides, and without one the roles do.
abbrev pub decided : Option MembershipPermissionOverride → Bool → Bool
decided none granted = granted
decided (some o) granted = is_allow o.effect

holds_code-discard :
    (code p : ℕ) (codes : List ℕ)
    → holds_code code (discard p codes) ≡ (not (p == code) && holds_code code codes)
holds_code-discard code p [] = ground arith
holds_code-discard code p (c ∷ cs) = ground (arith, holds_code-discard code p cs)

holds_code-append :
    (code : ℕ) (xs ys : List ℕ)
    → holds_code code (xs ++ ys) ≡ (holds_code code xs || holds_code code ys)
holds_code-append code [] ys = refl
holds_code-append code (x ∷ xs) ys = ground (arith, holds_code-append code xs ys)

apply_override-decided :
    (at code : ℕ) (o : MembershipPermissionOverride) (codes : List ℕ)
    → holds_code code (apply_override at o codes)
      ≡ (if concerns code at o then is_allow o.effect else holds_code code codes)
unfolding apply_override
apply_override-decided at code o codes = ground (arith, holds_code-discard code o.permission codes)

apply_overrides-decided :
    (at code : ℕ) (os : List MembershipPermissionOverride) (codes : List ℕ)
    → holds_code code (apply_overrides at os codes)
      ≡ decided (last (select (concerns code at) os)) (holds_code code codes)
unfolding apply_overrides
apply_overrides-decided at code [] codes = refl
apply_overrides-decided at code (o ∷ os) codes =
    elim (Option-cases (last (select (concerns code at) os))) [
      | inl n ↦ ground (
        arith,
        n,
        apply_overrides-decided at code os (apply_override at o codes),
        apply_override-decided at code o codes,
      )
      | inr (w, l) ↦
          ground (arith, l, apply_overrides-decided at code os (apply_override at o codes))
    ]

-- The roles give the code.
abbrev pub is_granted_code : AccessDb → ResourceScope → ℕ → ℕ → MembershipGrant → Bool
is_granted_code db target at code g =
    (grant_is_current g at && grant_applies db target g) && holds_code code (role_codes db g.role)

granted_codes-holds_code :
    (db : AccessDb) (target : ResourceScope) (at code : ℕ) (gs : List MembershipGrant)
    → holds_code code (granted_codes db target at gs)
      ≡ exists (is_granted_code db target at code) gs
unfolding granted_codes
granted_codes-holds_code db target at code [] = refl
granted_codes-holds_code db target at code (g ∷ gs) =
    elim (Bool-cases (grant_is_current g at && grant_applies db target g)) [
      | inl h ↦ rw h (
          holds_code-append code (role_codes db g.role) (granted_codes db target at gs)
          ∙ ap (λ b. holds_code code (role_codes db g.role) || b)
              (granted_codes-holds_code db target at code gs))
      | inr h ↦ rw h (granted_codes-holds_code db target at code gs)
    ]

-- A membership has a permission at a scope exactly as its latest override in force says, of those for
-- that permission at that very scope; where there is none, exactly if a current grant, of a role with the
-- permission, is at a scope that matches.
pub membership_has_permission-decided :
    (db : AccessDb) (m : CompanyMembership) (code : ℕ) (target : ResourceScope) (at : ℕ)
    → membership_has_permission db m code target at
      ≡ decided
          (last (select (concerns code at) (ordered_overrides db m target)))
          (exists (is_granted_code db target at code) (active_grants db m))
unfolding membership_has_permission resolve_effective_permissions
membership_has_permission-decided db m code target at =
    apply_overrides-decided at code (ordered_overrides db m target)
      (granted_codes db target at (active_grants db m))
    ∙ ap (decided (last (select (concerns code at) (ordered_overrides db m target))))
        (granted_codes-holds_code db target at code (active_grants db m))

select-IsSorted :
    {A : Type 0} (before : A → A → Bool) (p : A → Bool) (xs : List A)
    → IsSorted before xs
    → IsSorted before (select p xs)
select-IsSorted before p [] s = tt
select-IsSorted before p (x ∷ xs) s = elim (Bool-cases (p x)) [
  | inl h ↦ rw h ((λ y m. s.0 y (mem-select p xs m).0), select-IsSorted before p xs s.1)
  | inr h ↦ rw h (select-IsSorted before p xs s.1)
]

pub last-mem : {A : Type 0} (xs : List A) {w : A} → last xs ≡ some w → Memᴰ w xs
last-mem [] e = cc
last-mem (x ∷ xs) {w} e = elim (Option-cases (last xs)) [
  | inl n ↦ Memᴰ.head (ground (arith, n, e))
  | inr (v, l) ↦ Memᴰ.tail (last-mem xs (l ∙ ap some (ground (arith, l, e))))
]

last-none : {A : Type 0} (xs : List A) {x : A} → Memᴰ x xs → last xs ≡ none → ⊥
last-none [] m e = elim m [ ]
last-none (y ∷ ys) m e = elim (Option-cases (last ys)) [
  | inl n ↦ ground (arith, n, e)
  | inr (v, l) ↦ ground (arith, l, e)
]

-- The last of a sorted list is ahead of no element.
last-sorted :
    {A : Type 0} (before : A → A → Bool) (xs : List A) {w : A}
    → IsKeyOrder before
    → IsSorted before xs
    → last xs ≡ some w
    → (y : A) → Memᴰ y xs
    → before w y ≡ false
last-sorted before [] order s e y m = elim m [ ]
last-sorted before (x ∷ xs) {w} order s e y m = elim (Option-cases (last xs)) [
  | inl n ↦ elim m [
    | Memᴰ.head q ↦
        let p : w ≡ x = ground (arith, n, e) in
        subst (λ v. before w v ≡ false) (p ∙ sym q)
          (elim (Bool-cases (before w w)) [ inl h ↦ order.asym w w h | inr h ↦ h ])
    | Memᴰ.tail t ↦ absurd (last-none xs t n)
  ]
  | inr (v, l) ↦
      let p : last xs ≡ some w = l ∙ ap some (ground (arith, l, e)) in
      elim m [
        | Memᴰ.head q ↦ subst (λ z. before w z ≡ false) (sym q) (s.0 w (last-mem xs p))
        | Memᴰ.tail t ↦ last-sorted before xs order s.1 p y t
      ]
]

created_before-IsKeyOrder : IsKeyOrder created_before
created_before-IsKeyOrder = record {
  asym = λ a b h. ground (arith, h);
  neg_trans = λ a b c h g. ground (arith, h, g);
}

-- A denial in force at a scope takes the permission away there, whatever the roles of the membership
-- say, unless an override in force that was created at the same time or later allows it.
pub denied_at_scope :
    (db : AccessDb) (m : CompanyMembership) (code : ℕ) (target : ResourceScope) (at : ℕ)
    (d : MembershipPermissionOverride)
    → Memᴰ d (ordered_overrides db m target)
    → concerns code at d ≡ true
    → is_allow d.effect ≡ false
    → ((o : MembershipPermissionOverride)
        → Memᴰ o (ordered_overrides db m target)
        → concerns code at o ≡ true
        → is_allow o.effect ≡ true
        → o.created_at < d.created_at)
    → membership_has_permission db m code target at ≡ false
unfolding ordered_overrides
denied_at_scope db m code target at d md concerned deny latest =
    let all = ordered_overrides db m target in
    let rows = select (concerns code at) all in
    let sorted : IsSorted created_before rows =
      select-IsSorted created_before (concerns code at) all (
        sort_by-IsSorted created_before created_before-IsKeyOrder
          (select (λ o. o.membership == m.id && o.scope == target.id) db.overrides)) in
    let here = select-mem (concerns code at) all md concerned in
    membership_has_permission-decided db m code target at ∙ elim (Option-cases (last rows)) [
      | inl n ↦ absurd (last-none rows here n)
      | inr (w, l) ↦
          let (mw, cw) = mem-select (concerns code at) all (last-mem rows l) in
          elim (Bool-cases (is_allow w.effect)) [
            | inr h ↦ ground (arith, l, h)
            | inl h ↦ absurd (
                ground (
                  arith,
                  latest w mw cw h,
                  last-sorted created_before rows created_before-IsKeyOrder sorted l d here,
                ))
          ]
    ]
