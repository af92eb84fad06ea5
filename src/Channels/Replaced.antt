-- ===== src/Channels/Replaced.antt =====
-- Replacing the playlists of a channel (apps/playlists/services.py): what is asked for is what is stored.
use mathlib.Core.List.{map, append-nil, append_assoc}
use brandy_manager_back.Prelude.{
  ℕ, suc, ◌≡◌, refl, ap, ◌∙◌, List, [], ◌∷◌, ◌++◌, not, arith, select, inl, inr, Option-cases,
}
use brandy_manager_back.Result.{ok, Result-cases}
use brandy_manager_back.Table.{get, pk-get}
use brandy_manager_back.Models.Channels.{Channel, ChannelPlaylist, channel_row}
use brandy_manager_back.Channels.Store.{ChannelDb}
use brandy_manager_back.Channels.Rows.{of_channel, create_relation, create_relations}
use brandy_manager_back.Channels.Contents.{
  ChannelItem, resolved_relations, replace_channel_playlists,
}

-- The item of a request that a row stands for.
abbrev pub item_of : ChannelPlaylist → ChannelItem
item_of r = record {
  playlist_id = r.playlist;
  weight = r.weight;
  priority = r.priority;
  active_from = r.active_from;
  active_until = r.active_until;
}

-- The rows of a channel, and those of the others.
abbrev pub rows_of : ℕ → List ChannelPlaylist → List ChannelPlaylist
rows_of k rows = select (of_channel k) rows

abbrev pub rows_of_others : ℕ → List ChannelPlaylist → List ChannelPlaylist
rows_of_others k rows = select (λ r. not (of_channel k r)) rows

created_relations :
    (rs rows : List ChannelPlaylist) {rows' : List ChannelPlaylist}
    → create_relations rs rows ≡ ok rows'
    → rows' ≡ rows ++ rs
unfolding create_relations
created_relations [] rows h = ground (arith, append-nil rows)
created_relations (r ∷ rs) rows {rows'} h = elim (Result-cases (create_relation r rows)) [
  | inl (e, q) ↦ absurd (ground (arith, q))
  | inr (mid, q) ↦
      let m : mid ≡ rows ++ r ∷ [] = created r rows q in
      created_relations rs mid {rows' = rows'} (ground (arith, q))
      ∙ ap (λ x. x ++ rs) m
      ∙ append_assoc rows (r ∷ []) rs
]
  where
    created :
        (r : ChannelPlaylist) (rows : List ChannelPlaylist) {mid : List ChannelPlaylist}
        → create_relation r rows ≡ ok mid
        → mid ≡ rows ++ r ∷ []
    created r rows h = ground arith

module _ (k : ℕ) (fresh : ℕ → ℕ) (now : ℕ) where
  items-back :
      (n : ℕ) (items : List ChannelItem)
      → map item_of (rows_of k (resolved_relations k fresh n now items)) ≡ items
  unfolding resolved_relations
  items-back n [] = refl
  items-back n (i ∷ is) = ground (arith, items-back (suc n) is)

  others-nil :
      (n : ℕ) (items : List ChannelItem)
      → rows_of_others k (resolved_relations k fresh n now items) ≡ []
  unfolding resolved_relations
  others-nil n [] = refl
  others-nil n (i ∷ is) = ground (arith, others-nil (suc n) is)

select-rest :
    (k : ℕ) (rows added : List ChannelPlaylist)
    → rows_of k (rows_of_others k rows ++ added) ≡ rows_of k added
select-rest k [] added = refl
select-rest k (r ∷ rs) added = ground (arith, select-rest k rs added)

select-rest_others :
    (k : ℕ) (rows added : List ChannelPlaylist)
    → rows_of_others k (rows_of_others k rows ++ added)
      ≡ rows_of_others k rows ++ rows_of_others k added
select-rest_others k [] added = refl
select-rest_others k (r ∷ rs) added = ground (arith, select-rest_others k rs added)

-- After an accepted request the channel's rows, read back in order, are the items that were sent, and
-- the rows of the other channels are what they were.
pub replace-items :
    (company k : ℕ) (items : List ChannelItem) (e : ℕ) (fresh : ℕ → ℕ) (now : ℕ) (db : ChannelDb)
    {c : Channel} {db' : ChannelDb}
    → replace_channel_playlists company k items e fresh now db ≡ ok (c, db')
    → (map item_of (rows_of k db'.relations) ≡ items)
      × (rows_of_others k db'.relations ≡ rows_of_others k db.relations)
unfolding replace_channel_playlists
replace-items company k items e fresh now db {c} {db'} h = elim (Option-cases (get k db.channels)) [
  | inl n ↦ absurd (ground arith)
  | inr (old, g) ↦
      let q : old.id ≡ k = pk-get k db.channels g in
      let new = resolved_relations k fresh 0 now items in
      let rest = rows_of_others k db.relations in
      elim (Result-cases (create_relations new rest)) [
        | inl (x, w) ↦ absurd (ground (arith, g, q, w))
        | inr (rows, w) ↦
            let s : db'.relations ≡ rest ++ new =
              ground (arith, g, q, w, created_relations new rest w) in
            (
              ap (λ x. map item_of (rows_of k x)) s
                  ∙ ap (map item_of) (select-rest k db.relations new)
                  ∙ items-back k fresh now 0 items,
              ap (rows_of_others k) s
                  ∙ select-rest_others k db.relations new
                  ∙ ap (λ x. rest ++ x) (others-nil k fresh now 0 items)
                  ∙ append-nil rest,
            )
      ]
]
