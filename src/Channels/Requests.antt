-- ===== src/Channels/Requests.antt =====
-- The requests of the channel views, each one service of apps/playlists/services.py.
use brandy_manager_back.Prelude.{ℕ, Option, List}
use brandy_manager_back.Text.{Text}
use brandy_manager_back.Channels.Store.{ChannelEnv, C, ◌>>◌, return}
use brandy_manager_back.Channels.Lifecycle.{
  ChannelPatch, PolicyPatch, create_channel, update_channel_metadata, update_channel_policy,
  duplicate_channel, archive_channel, reactivate_channel,
}
use brandy_manager_back.Channels.Contents.{ChannelItem, replace_channel_playlists}
use brandy_manager_back.Channels.Publishing.{publish_channel}
use brandy_manager_back.Channels.Assigning.{assign_channel_to_zone, unassign_channel_from_zone}

-- Numbers named for keys are those of the rows that a request creates.
pub data ChannelRequest : Type 0 where
  create :
      (company : ℕ) (name code description : Text) (actor : Option ℕ) (new_id policy_id : ℕ)
      → ChannelRequest
  update : (channel expected : ℕ) (patch : ChannelPatch) → ChannelRequest
  set_policy : (channel expected : ℕ) (patch : PolicyPatch) (policy_id : ℕ) → ChannelRequest
  replace :
      (company channel : ℕ) (items : List ChannelItem) (expected : ℕ) (fresh : ℕ → ℕ)
      → ChannelRequest
  duplicate :
      (company channel : ℕ) (actor : Option ℕ) (name code : Text)
      (new_id source_policy copy_policy : ℕ) (fresh : ℕ → ℕ)
      → ChannelRequest
  publish :
      (channel company : ℕ) (actor expected : Option ℕ) (policy_id new_id : ℕ)
      (fresh zone_fresh : ℕ → ℕ)
      → ChannelRequest
  archive : (channel expected : ℕ) → ChannelRequest
  reactivate : (company channel expected : ℕ) → ChannelRequest
  assign :
      (company zone channel : ℕ) (actor : Option ℕ) (reason : Text) (new_id snapshot_id : ℕ)
      → ChannelRequest
  unassign :
      (company zone : ℕ) (actor : Option ℕ) (reason : Text) (snapshot_id : ℕ) → ChannelRequest

unfoldable pub run_channel : ChannelEnv → ℕ → ChannelRequest → C (Unit {0})
run_channel env now (ChannelRequest.create company name code description actor i p) =
    create_channel env company name code description actor i p >> return tt
run_channel env now (ChannelRequest.update k e patch) =
    update_channel_metadata env k e patch >> return tt
run_channel env now (ChannelRequest.set_policy k e patch p) =
    update_channel_policy env k e patch p >> return tt
run_channel env now (ChannelRequest.replace company k items e fresh) =
    replace_channel_playlists company k items e fresh now >> return tt
run_channel env now (ChannelRequest.duplicate company k actor name code i p q fresh) =
    duplicate_channel env company k actor name code i p q fresh now >> return tt
run_channel env now (ChannelRequest.publish k company actor e p i fresh zone_fresh) =
    publish_channel env k company actor e p i fresh zone_fresh now >> return tt
run_channel env now (ChannelRequest.archive k e) = archive_channel k e now >> return tt
run_channel env now (ChannelRequest.reactivate company k e) =
    reactivate_channel company k e >> return tt
run_channel env now (ChannelRequest.assign company zone k actor reason i o) =
    assign_channel_to_zone env company zone k actor reason i o now >> return tt
run_channel env now (ChannelRequest.unassign company zone actor reason o) =
    unassign_channel_from_zone env company zone actor reason o now >> return tt
