-- ===== src/Channels/Quiet.antt =====
-- What the requests of a channel (apps/playlists/services.py) leave alone.
use brandy_manager_back.Prelude.{ℕ, ◌≡◌, Option, List, arith}
use brandy_manager_back.Result.{ok}
use brandy_manager_back.Text.{Text}
use brandy_manager_back.Models.Channels.{Channel}
use brandy_manager_back.Channels.Store.{ChannelDb, ChannelEnv}
use brandy_manager_back.Channels.Lifecycle.{
  ChannelPatch, PolicyPatch, create_channel, update_channel_metadata, update_channel_policy,
  duplicate_channel, archive_channel, reactivate_channel,
}
use brandy_manager_back.Channels.Contents.{ChannelItem, replace_channel_playlists}

-- The tables that say what zones play.
pub record Quiet (db db' : ChannelDb) : Type 0 where
  pub same_assignments : db'.assignments ≡ db.assignments
  pub same_snapshots : db'.snapshots ≡ db.snapshots
  pub same_operational : db'.operational ≡ db.operational

module _ (env : ChannelEnv) (now : ℕ) (db : ChannelDb) {db' : ChannelDb} {c : Channel} where
  pub create-Quiet :
      (company : ℕ) (name code description : Text) (actor : Option ℕ) (i p : ℕ)
      → create_channel env company name code description actor i p db ≡ ok (c, db')
      → Quiet db db'
  unfolding create_channel
  create-Quiet company name code description actor i p h = ground arith

  pub update-Quiet :
      (k e : ℕ) (patch : ChannelPatch)
      → update_channel_metadata env k e patch db ≡ ok (c, db')
      → Quiet db db'
  unfolding update_channel_metadata
  update-Quiet k e patch h = ground arith

  pub policy-Quiet :
      (k e : ℕ) (patch : PolicyPatch) (p : ℕ)
      → update_channel_policy env k e patch p db ≡ ok (c, db')
      → Quiet db db'
  unfolding update_channel_policy
  policy-Quiet k e patch p h = ground arith

  pub duplicate-Quiet :
      (company k : ℕ) (actor : Option ℕ) (name code : Text) (i p q : ℕ) (fresh : ℕ → ℕ)
      → duplicate_channel env company k actor name code i p q fresh now db ≡ ok (c, db')
      → Quiet db db'
  unfolding duplicate_channel
  duplicate-Quiet company k actor name code i p q fresh h = ground arith

module _ (now : ℕ) (db : ChannelDb) {db' : ChannelDb} {c : Channel} where
  pub replace-Quiet :
      (company k : ℕ) (items : List ChannelItem) (e : ℕ) (fresh : ℕ → ℕ)
      → replace_channel_playlists company k items e fresh now db ≡ ok (c, db')
      → Quiet db db'
  unfolding replace_channel_playlists
  replace-Quiet company k items e fresh h = ground arith

  pub archive-Quiet : (k e : ℕ) → archive_channel k e now db ≡ ok (c, db') → Quiet db db'
  unfolding archive_channel
  archive-Quiet k e h = ground arith

  pub reactivate-Quiet :
      (company k e : ℕ) → reactivate_channel company k e db ≡ ok (c, db') → Quiet db db'
  unfolding reactivate_channel
  reactivate-Quiet company k e h = ground arith
