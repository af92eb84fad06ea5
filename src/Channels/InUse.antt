-- ===== src/Channels/InUse.antt =====
-- Which channels a request of apps/playlists/services.py archives.
use brandy_manager_back.Prelude.{
  ℕ, ◌≡◌, ◌⊎◌, sym, ap, ◌∙◌, subst, Option, none, some, List, true, false, ◌==◌, arith, exists, inl,
  inr, Option-cases, Bool-cases,
}
use brandy_manager_back.Result.{ok}
use brandy_manager_back.Table.{
  get, save, insert, get-save, get-save_ne, pk-get, get-insert_ne, get-insert_self,
}
use brandy_manager_back.Text.{Text}
use brandy_manager_back.Models.Channels.{Channel, channel_row, channel_is_archived}
use brandy_manager_back.Channels.Store.{ChannelDb, ChannelEnv}
use brandy_manager_back.Channels.Contents.{ChannelItem, replace_channel_playlists}
use brandy_manager_back.Channels.Lifecycle.{
  ChannelPatch, PolicyPatch, is_open_on, create_channel, update_channel_metadata,
  update_channel_policy, duplicate_channel, archive_channel, reactivate_channel,
}

-- A channel that is archived afterwards was so before, or no zone plays it.
abbrev pub Archives : ChannelDb → ChannelDb → Type 0
Archives db db' =
    (k : ℕ) (c : Channel)
    → get k db'.channels ≡ some c
    → channel_is_archived c.status ≡ true
    → ((old : Channel) × (get k db.channels ≡ some old) × (channel_is_archived old.status ≡ true))
      ⊎ (exists (is_open_on k) db.assignments ≡ false)

saved-Archives :
    (db db' : ChannelDb) (x old : Channel)
    → db'.channels ≡ save x db.channels
    → get x.id db.channels ≡ some old
    → (channel_is_archived x.status ≡ channel_is_archived old.status)
      ⊎ ((channel_is_archived x.status ≡ false) ⊎ (exists (is_open_on x.id) db.assignments ≡ false))
    → Archives db db'
saved-Archives db db' x old e g why k c h arch = elim (Bool-cases (x.id == k)) [
  | inl s ↦
      let xk : x.id ≡ k = ground (arith, s) in
      let same : c ≡ x = ground (
        arith,
        subst (λ n. get n (save x db.channels) ≡ some x) xk (get-save x db.channels g),
        sym (ap (get k) e) ∙ h,
      ) in
      elim why [
        | inl q ↦ inl (old, subst (λ n. get n db.channels ≡ some old) xk g, ground (arith, same, q))
        | inr w ↦ elim w [
          | inl q ↦ absurd (ground (arith, same, q))
          | inr q ↦ inr (subst (λ n. exists (is_open_on n) db.assignments ≡ false) xk q)
        ]
      ]
  | inr n ↦ inl (
    c,
    sym (get-save_ne x k db.channels (λ q. absurd (ground (arith, n, q)))) ∙ sym (ap (get k) e) ∙ h,
    arch,
  )
]

inserted-Archives :
    (db db' : ChannelDb) (x : Channel)
    → db'.channels ≡ insert x db.channels
    → get x.id db.channels ≡ none
    → channel_is_archived x.status ≡ false
    → Archives db db'
inserted-Archives db db' x e g draft k c h arch = elim (Bool-cases (x.id == k)) [
  | inl s ↦
      let xk : x.id ≡ k = ground (arith, s) in
      absurd (
        ground (
          arith,
          draft,
          subst (λ n. get n (insert x db.channels) ≡ some x) xk (get-insert_self x db.channels g),
          sym (ap (get k) e) ∙ h,
        ))
  | inr n ↦ inl (
    c,
    sym (get-insert_ne x k db.channels (λ q. absurd (ground (arith, n, q))))
        ∙ sym (ap (get k) e)
        ∙ h,
    arch,
  )
]

module _ (env : ChannelEnv) (now : ℕ) (db : ChannelDb) {db' : ChannelDb} {c : Channel} where
  pub update-Archives :
      (k e : ℕ) (patch : ChannelPatch)
      → update_channel_metadata env k e patch db ≡ ok (c, db')
      → Archives db db'
  unfolding update_channel_metadata
  update-Archives k e patch h = elim (Option-cases (get k db.channels)) [
    | inl n ↦ absurd (ground arith)
    | inr (old, g) ↦
        let q : old.id ≡ k = pk-get k db.channels g in
        saved-Archives db db' c old (ground (arith, g)) (ground (arith, g, q))
          (inl (ground (arith, g)))
  ]

  pub policy-Archives :
      (k e : ℕ) (patch : PolicyPatch) (p : ℕ)
      → update_channel_policy env k e patch p db ≡ ok (c, db')
      → Archives db db'
  unfolding update_channel_policy
  policy-Archives k e patch p h = elim (Option-cases (get k db.channels)) [
    | inl n ↦ absurd (ground arith)
    | inr (old, g) ↦
        let q : old.id ≡ k = pk-get k db.channels g in
        saved-Archives db db' c old (ground (arith, g)) (ground (arith, g, q))
          (inl (ground (arith, g)))
  ]

  pub create-Archives :
      (company : ℕ) (name code description : Text) (actor : Option ℕ) (i p : ℕ)
      → create_channel env company name code description actor i p db ≡ ok (c, db')
      → Archives db db'
  unfolding create_channel
  create-Archives company name code description actor i p h =
      elim (Option-cases (get i db.channels)) [
        | inl n ↦
            inserted-Archives db db' c (ground (arith, n)) (ground (arith, n)) (ground (arith, n))
        | inr (x, g) ↦ absurd (ground (arith, g))
      ]

  pub duplicate-Archives :
      (company k : ℕ) (actor : Option ℕ) (name code : Text) (i p q : ℕ) (fresh : ℕ → ℕ)
      → duplicate_channel env company k actor name code i p q fresh now db ≡ ok (c, db')
      → Archives db db'
  unfolding duplicate_channel
  duplicate-Archives company k actor name code i p q fresh h =
      elim (Option-cases (get i db.channels)) [
        | inl n ↦
            inserted-Archives db db' c (ground (arith, n)) (ground (arith, n)) (ground (arith, n))
        | inr (x, g) ↦ absurd (ground (arith, g))
      ]

module _ (now : ℕ) (db : ChannelDb) {db' : ChannelDb} {c : Channel} where
  pub replace-Archives :
      (company k : ℕ) (items : List ChannelItem) (e : ℕ) (fresh : ℕ → ℕ)
      → replace_channel_playlists company k items e fresh now db ≡ ok (c, db')
      → Archives db db'
  unfolding replace_channel_playlists
  replace-Archives company k items e fresh h = elim (Option-cases (get k db.channels)) [
    | inl n ↦ absurd (ground arith)
    | inr (old, g) ↦
        let q : old.id ≡ k = pk-get k db.channels g in
        saved-Archives db db' c old (ground (arith, g)) (ground (arith, g, q))
          (inl (ground (arith, g)))
  ]

  pub archive-Archives : (k e : ℕ) → archive_channel k e now db ≡ ok (c, db') → Archives db db'
  unfolding archive_channel
  archive-Archives k e h = elim (Option-cases (get k db.channels)) [
    | inl n ↦ absurd (ground arith)
    | inr (old, g) ↦
        let q : old.id ≡ k = pk-get k db.channels g in
        saved-Archives db db' c old (ground (arith, g)) (ground (arith, g, q))
          (inr (inr (ground (arith, g))))
  ]

  pub reactivate-Archives :
      (company k e : ℕ) → reactivate_channel company k e db ≡ ok (c, db') → Archives db db'
  unfolding reactivate_channel
  reactivate-Archives company k e h = elim (Option-cases (get k db.channels)) [
    | inl n ↦ absurd (ground arith)
    | inr (old, g) ↦
        let q : old.id ≡ k = pk-get k db.channels g in
        saved-Archives db db' c old (ground (arith, g)) (ground (arith, g, q))
          (inr (inl (ground (arith, g))))
  ]

pub same-Archives : (db db' : ChannelDb) → db'.channels ≡ db.channels → Archives db db'
same-Archives db db' e k c h arch = inl (c, sym (ap (get k) e) ∙ h, arch)

pub published-Archives :
    (db db' : ChannelDb) (x old : Channel)
    → db'.channels ≡ save x db.channels
    → get x.id db.channels ≡ some old
    → channel_is_archived x.status ≡ false
    → Archives db db'
published-Archives db db' x old e g n = saved-Archives db db' x old e g (inr (inl n))
