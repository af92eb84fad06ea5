-- ===== src/Sites/Closed.antt =====
-- An archived site has no open zone, whatever requests of apps/organizations/services.py are run.
use brandy_manager_back.Prelude.{
  ℕ, ◌≡◌, sym, ap, ◌∙◌, subst, none, some, List, [], ◌∷◌, Bool, true, false, not, ◌&&◌, ◌==◌, arith,
  inl, inr, Memᴰ, mem-append, mem-singleton, Bool-cases,
}
use brandy_manager_back.Table.{
  get, save, insert, update, HasUniqueKeys, pk-get, mem-save, mem-update, get-save, get-save_ne,
  get-insert_ne, get-insert_self, save-HasUniqueKeys, insert-HasUniqueKeys,
}
use brandy_manager_back.Models.Organizations.{
  Site, Zone, site_is_archived, zone_is_archived, site_row, zone_row, scope_row,
}
use brandy_manager_back.Sites.Services.{archived_with}

-- A stored site that is archived has archived zones only.
abbrev pub HasClosedZones : List Site → List Zone → Type 0
HasClosedZones sites zones =
    (z : Zone) (s : Site)
    → Memᴰ z zones
    → get z.site sites ≡ some s
    → site_is_archived s.status ≡ true
    → zone_is_archived z.status ≡ true

pub record IsClosed (sites : List Site) (zones : List Zone) : Type 0 where
  pub keys : HasUniqueKeys sites
  pub closed : HasClosedZones sites zones

pub saved_site-IsClosed :
    (k : ℕ) (sites : List Site) (zones : List Zone) (old s : Site)
    → get k sites ≡ some old
    → s.id ≡ old.id
    → (site_is_archived s.status ≡ true → site_is_archived old.status ≡ true)
    → IsClosed sites zones
    → IsClosed (save s sites) zones
saved_site-IsClosed k sites zones old s l e keeps c = record {
  keys = save-HasUniqueKeys s sites c.keys;
  closed = λ z t m g a. elim (Bool-cases (z.site == s.id)) [
    | inl h ↦
        let at_k : s.id ≡ k = e ∙ pk-get k sites l in
        let z_at : z.site ≡ s.id = ground arith in
        let here : get s.id sites ≡ some old = ap (λ j. get j sites) at_k ∙ l in
        let now_s : get s.id (save s sites) ≡ some s = get-save s {old = old} sites here in
        let again : get s.id (save s sites) ≡ some t =
          ap (λ j. get j (save s sites)) (sym z_at) ∙ g in
        c.closed z old m (ap (λ j. get j sites) z_at ∙ here)
          (keeps (ground (arith, now_s, again, a)))
    | inr h ↦ c.closed z t m (sym (get-save_ne s z.site sites (ground arith)) ∙ g) a
  ];
}

pub saved_zone-IsClosed :
    (sites : List Site) (zones : List Zone) (w : Zone)
    → ((s : Site)
        → get w.site sites ≡ some s
        → site_is_archived s.status ≡ true
        → zone_is_archived w.status ≡ true)
    → IsClosed sites zones
    → IsClosed sites (save w zones)
saved_zone-IsClosed sites zones w good c = record {
  keys = c.keys;
  closed = λ z s m g a. elim (mem-save w zones m) [
    | inl q ↦
        ap (λ v. zone_is_archived v.status) q ∙ good s (ap (λ v. get v.site sites) (sym q) ∙ g) a
    | inr q ↦ c.closed z s q.0 g a
  ];
}

pub inserted_zone-IsClosed :
    (sites : List Site) (zones : List Zone) (w : Zone)
    → ((s : Site) → get w.site sites ≡ some s → site_is_archived s.status ≡ false)
    → IsClosed sites zones
    → IsClosed sites (insert w zones)
inserted_zone-IsClosed sites zones w good c = record {
  keys = c.keys;
  closed = λ z s m g a. elim (mem-append zones (w ∷ []) m) [
    | inl t ↦ c.closed z s t g a
    | inr t ↦
        absurd (ground (arith, good s (ap (λ v. get v.site sites) (sym (mem-singleton t)) ∙ g), a))
  ];
}

pub inserted_site-IsClosed :
    (sites : List Site) (zones : List Zone) (s : Site)
    → get s.id sites ≡ none
    → site_is_archived s.status ≡ false
    → IsClosed sites zones
    → IsClosed (insert s sites) zones
inserted_site-IsClosed sites zones s fresh active c = record {
  keys = insert-HasUniqueKeys s sites c.keys fresh;
  closed = λ z t m g a. elim (Bool-cases (z.site == s.id)) [
    | inl h ↦
        let z_at : z.site ≡ s.id = ground arith in
        let again : get s.id (insert s sites) ≡ some t =
          ap (λ j. get j (insert s sites)) (sym z_at) ∙ g in
        absurd (ground (arith, get-insert_self s sites fresh, again, a, active))
    | inr h ↦ c.closed z t m (sym (get-insert_ne s z.site sites (ground arith)) ∙ g) a
  ];
}

pub archived-IsClosed :
    (k now : ℕ) (sites : List Site) (zones : List Zone) (s : Site)
    → s.id ≡ k
    → IsClosed sites zones
    → IsClosed
        (save s sites)
        (update (λ z. z.site == k && not (zone_is_archived z.status)) (archived_with now) zones)
archived-IsClosed k now sites zones s e c = record {
  keys = save-HasUniqueKeys s sites c.keys;
  closed = λ z t m g a.
      let p : Zone → Bool = λ z. z.site == k && not (zone_is_archived z.status) in
      let (y, my, q) = mem-update p (archived_with now) zones m in
      elim (Bool-cases (p y)) [
        | inl h ↦ ground (arith, h, ap (λ w. w.status) q)
        | inr h ↦
            let same : z ≡ y = ground (arith, h, q) in
            elim (Bool-cases (y.site == k)) [
              | inl f ↦ ap (λ w. zone_is_archived w.status) same ∙ ground (arith, h, f)
              | inr f ↦
                  let y_at : z.site ≡ y.site = ap (λ w. w.site) same in
                  ap (λ w. zone_is_archived w.status) same
                  ∙ c.closed y t my
                      (sym (get-save_ne s y.site sites (ground (arith, f, e)))
                        ∙ ap (λ j. get j (save s sites)) (sym y_at)
                        ∙ g)
                      a
            ]
      ];
}

-- Two tables that are what a lemma speaks of.
pub rewritten :
    {sites sites' : List Site} {zones zones' : List Zone}
    → sites' ≡ sites
    → zones' ≡ zones
    → IsClosed sites zones
    → IsClosed sites' zones'
rewritten {sites} {sites'} {zones} {zones'} e f c =
    subst (λ t. IsClosed t zones') (sym e) (subst (λ t. IsClosed sites t) (sym f) c)
