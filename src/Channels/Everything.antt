-- ===== src/Channels/Everything.antt =====
-- Every request of the channel views (apps/playlists/services.py), one by one.
use brandy_manager_back.Prelude.{ℕ, ◌≡◌}
use brandy_manager_back.Result.{ok}
use brandy_manager_back.Transaction.{ran}
use brandy_manager_back.Channels.Store.{ChannelDb, ChannelEnv}
use brandy_manager_back.Channels.Lifecycle.{
  create_channel, update_channel_metadata, update_channel_policy, duplicate_channel,
  archive_channel, reactivate_channel,
}
use brandy_manager_back.Channels.Contents.{replace_channel_playlists}
use brandy_manager_back.Channels.Publishing.{publish_channel}
use brandy_manager_back.Channels.Assigning.{assign_channel_to_zone, unassign_channel_from_zone}
use brandy_manager_back.Channels.Requests.{ChannelRequest, run_channel}
use brandy_manager_back.Channels.Quiet.{
  Quiet, create-Quiet, update-Quiet, policy-Quiet, duplicate-Quiet, replace-Quiet, archive-Quiet,
  reactivate-Quiet,
}
use brandy_manager_back.Channels.Served.{
  IsConsistent, Quiet-IsConsistent, assign-IsConsistent, unassign-IsConsistent,
}
use brandy_manager_back.Channels.InUse.{
  Archives, create-Archives, update-Archives, policy-Archives, duplicate-Archives, replace-Archives,
  archive-Archives, reactivate-Archives,
}
use brandy_manager_back.Channels.Playing.{IsPlayable, Plays-IsPlayable, same-Plays, assign-Plays}
use brandy_manager_back.Channels.Published.{Keeps, publish-Keeps}
use brandy_manager_back.Channels.Played.{unassign-Plays}

Quiet-Keeps : (db db' : ChannelDb) → Archives db db' → Quiet db db' → Keeps db db'
Quiet-Keeps db db' archives quiet = record {
  consistent = Quiet-IsConsistent quiet;
  plays = same-Plays db db' archives quiet.same_assignments;
}

run-Keeps :
    (env : ChannelEnv) (now : ℕ) (r : ChannelRequest) (db : ChannelDb) {u : Unit {0}}
    {db' : ChannelDb}
    → run_channel env now r db ≡ ok (u, db')
    → Keeps db db'
unfolding run_channel
run-Keeps env now (ChannelRequest.create company name code description actor i p) db {u} {db'} h =
    let (c, e) = ran (create_channel env company name code description actor i p) {db = db} h in
    Quiet-Keeps db db' (create-Archives env now db company name code description actor i p e)
      (create-Quiet env now db company name code description actor i p e)
run-Keeps env now (ChannelRequest.update k r patch) db {u} {db'} h =
    let (c, e) = ran (update_channel_metadata env k r patch) {db = db} h in
    Quiet-Keeps db db' (update-Archives env now db k r patch e)
      (update-Quiet env now db k r patch e)
run-Keeps env now (ChannelRequest.set_policy k r patch p) db {u} {db'} h =
    let (c, e) = ran (update_channel_policy env k r patch p) {db = db} h in
    Quiet-Keeps db db' (policy-Archives env now db k r patch p e)
      (policy-Quiet env now db k r patch p e)
run-Keeps env now (ChannelRequest.replace company k items r fresh) db {u} {db'} h =
    let (c, e) = ran (replace_channel_playlists company k items r fresh now) {db = db} h in
    Quiet-Keeps db db' (replace-Archives now db company k items r fresh e)
      (replace-Quiet now db company k items r fresh e)
run-Keeps env now (ChannelRequest.duplicate company k actor name code i p q fresh) db {u} {db'} h =
    let (c, e) =
      ran (duplicate_channel env company k actor name code i p q fresh now) {db = db} h in
    Quiet-Keeps db db' (duplicate-Archives env now db company k actor name code i p q fresh e)
      (duplicate-Quiet env now db company k actor name code i p q fresh e)
run-Keeps env now (ChannelRequest.publish k company actor r p i fresh zone_fresh) db h =
    publish-Keeps env k company actor r p i fresh zone_fresh now db
      (ran (publish_channel env k company actor r p i fresh zone_fresh now) {db = db} h).1
run-Keeps env now (ChannelRequest.archive k r) db {u} {db'} h =
    let (c, e) = ran (archive_channel k r now) {db = db} h in
    Quiet-Keeps db db' (archive-Archives now db k r e) (archive-Quiet now db k r e)
run-Keeps env now (ChannelRequest.reactivate company k r) db {u} {db'} h =
    let (c, e) = ran (reactivate_channel company k r) {db = db} h in
    Quiet-Keeps db db' (reactivate-Archives now db company k r e)
      (reactivate-Quiet now db company k r e)
run-Keeps env now (ChannelRequest.assign company zone k actor reason i o) db h =
    let (a, e) = ran (assign_channel_to_zone env company zone k actor reason i o now) {db = db} h in
    record {
      consistent = assign-IsConsistent env company zone k actor reason i o now db e;
      plays = assign-Plays env company zone k actor reason i o now db e;
    }
run-Keeps env now (ChannelRequest.unassign company zone actor reason o) db h =
    let (a, e) = ran (unassign_channel_from_zone env company zone actor reason o now) {db = db} h in
    record {
      consistent = unassign-IsConsistent env company zone actor reason o now db e;
      plays = unassign-Plays env company zone actor reason o now db e;
    }

-- After every accepted request of the channel services, each zone has at most one ready operational
-- snapshot, which names the channel of the zone's open assignment and the latest published snapshot of
-- that channel, and has one where it has an open assignment, if all this was so before.
pub run-IsConsistent :
    (env : ChannelEnv) (now : ℕ) (r : ChannelRequest) (db : ChannelDb) {u : Unit {0}}
    {db' : ChannelDb}
    → run_channel env now r db ≡ ok (u, db')
    → IsConsistent db
    → IsConsistent db'
run-IsConsistent env now r db h = (run-Keeps env now r db h).consistent

-- Every accepted request of the channel services keeps this: no channel of an assignment that is still
-- open is archived.
pub run-IsPlayable :
    (env : ChannelEnv) (now : ℕ) (r : ChannelRequest) (db : ChannelDb) {u : Unit {0}}
    {db' : ChannelDb}
    → run_channel env now r db ≡ ok (u, db')
    → IsPlayable db
    → IsPlayable db'
run-IsPlayable env now r db h = Plays-IsPlayable (run-Keeps env now r db h).plays
