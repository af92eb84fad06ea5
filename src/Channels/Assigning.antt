-- ===== src/Channels/Assigning.antt =====
-- The channel that a zone plays (apps/playlists/services.py): assigned, changed and withdrawn.
use brandy_manager_back.Prelude.{
  ℕ, Option, none, some, List, [], ◌∷◌, Bool, not, ◌&&◌, ◌||◌, ◌==◌, is_none, is_some, exists,
  false, select, same_key, if◌then◌else◌,
}
use brandy_manager_back.Table.{get, save, insert}
use brandy_manager_back.Text.{Text, or_default}
use brandy_manager_back.Result.{does_not_exist, validation_error, zone_channel_assignment_invalid}
use brandy_manager_back.Models.Organizations.{
  Site, Zone, site_is_archived, zone_is_archived, site_row, zone_row,
}
use brandy_manager_back.Models.Channels.{
  Channel, channel_row, ZoneChannelAssignment, channel_is_published, latest_channel_snapshot,
  active_assignment, is_open_in, channel_assignment_row,
}
use brandy_manager_back.Channels.Store.{
  ChannelEnv, C, ◌>>=◌, ◌>>◌, return, gets, or_raise, modify, raise_if,
}
use brandy_manager_back.Channels.Rows.{load_channel}
use brandy_manager_back.Playback.Snapshots.{channel_is_usable, create_zone_operational_snapshot}

-- `Zone.objects.select_for_update().get(id=zone.id, company=company)`
unfoldable pub load_company_zone : ℕ → ℕ → C Zone
load_company_zone company k =
    gets (λ db. get k (select (λ z. z.company == company) db.store.zones)) >>= λ found.
    or_raise found does_not_exist

-- the site of a zone; `Zone.site` is never null
abbrev pub has_archived_site : Zone → List Site → Bool
has_archived_site z sites = exists (λ s. s.id == z.site && site_is_archived s.status) sites

abbrev pub is_assignable : ℕ → Channel → Bool
is_assignable company c =
    (is_none c.owner_company || same_key c.owner_company (some company))
    && channel_is_published c.status

abbrev pub closed_assignment :
    Option ℕ → Text → Text → ℕ → ZoneChannelAssignment → ZoneChannelAssignment
closed_assignment actor reason default now a = record a {
  unassigned_at = some now;
  unassigned_by = actor;
  reason = or_default reason default;
}

-- `ZoneChannelAssignment.clean`, by its fields
abbrev pub is_zone_of : ℕ → Option Zone → Bool
is_zone_of company none = false
is_zone_of company (some z) = z.company == company

-- `ZoneChannelAssignment.objects.create(...)`, with `uniq_active_channel_assignment_per_zone`
unfoldable pub insert_channel_assignment : ZoneChannelAssignment → C (Unit {0})
insert_channel_assignment a =
    gets (λ db. is_zone_of a.company (get a.zone db.store.zones)) >>= λ zone.
    raise_if (not zone) (validation_error "zone")
    >> gets (λ db. channel_is_usable a.company (get a.channel db.channels))
    >>= λ channel.
        raise_if (not channel) (validation_error "channel")
        >> gets
            (λ db. is_some (get a.id db.assignments) || exists (is_open_in a.zone) db.assignments)
        >>= λ broken.
            raise_if broken (validation_error "__all__")
            >> modify (λ db. record db { assignments = insert a db.assignments })

-- `"CHANNEL_ASSIGNED"`, `"CHANNEL_UNASSIGNED"`, `"Cambio de canal"` and `"Canal retirado"`
abbrev pub channel_assigned : Text
channel_assigned =
    67 ∷ 72 ∷ 65 ∷ 78 ∷ 78 ∷ 69 ∷ 76 ∷ 95 ∷ 65 ∷ 83 ∷ 83 ∷ 73 ∷ 71 ∷ 78 ∷ 69 ∷ 68 ∷ []

abbrev pub channel_unassigned : Text
channel_unassigned =
    67 ∷ 72 ∷ 65 ∷ 78 ∷ 78 ∷ 69 ∷ 76 ∷ 95 ∷ 85 ∷ 78 ∷ 65 ∷ 83 ∷ 83 ∷ 73 ∷ 71 ∷ 78 ∷ 69 ∷ 68 ∷ []

abbrev pub channel_changed : Text
channel_changed =
    67 ∷ 97 ∷ 109 ∷ 98 ∷ 105 ∷ 111 ∷ 32 ∷ 100 ∷ 101 ∷ 32 ∷ 99 ∷ 97 ∷ 110 ∷ 97 ∷ 108 ∷ []

abbrev pub channel_withdrawn : Text
channel_withdrawn =
    67 ∷ 97 ∷ 110 ∷ 97 ∷ 108 ∷ 32 ∷ 114 ∷ 101 ∷ 116 ∷ 105 ∷ 114 ∷ 97 ∷ 100 ∷ 111 ∷ []

abbrev pub opened_assignment : ℕ → ℕ → ℕ → Option ℕ → Text → ℕ → ℕ → ZoneChannelAssignment
opened_assignment company zone channel actor reason new_id now = record {
  id = new_id;
  company = company;
  zone = zone;
  channel = channel;
  assigned_by = actor;
  assigned_at = now;
  unassigned_by = none;
  unassigned_at = none;
  reason = reason;
}

-- A new assignment, and the new snapshot of the zone.
unfoldable pub open_assignment :
    ChannelEnv → ZoneChannelAssignment → ℕ → ℕ → C ZoneChannelAssignment
unfolding insert_channel_assignment create_zone_operational_snapshot
open_assignment env a snapshot_id now =
    insert_channel_assignment a
    >> create_zone_operational_snapshot env a.zone channel_assigned snapshot_id now
    >> return a

abbrev pub close_assignment : ZoneChannelAssignment → C (Unit {0})
close_assignment closed = modify (λ db. record db { assignments = save closed db.assignments })

-- What follows the checks, by the zone's open assignment: none, one of the same channel, another.
unfoldable pub change_assignment :
    ChannelEnv
    → ZoneChannelAssignment
    → Option ℕ
    → Text
    → ℕ
    → ℕ
    → Option ZoneChannelAssignment
    → C ZoneChannelAssignment
unfolding open_assignment
change_assignment env a actor reason snapshot_id now none = open_assignment env a snapshot_id now
change_assignment env a actor reason snapshot_id now (some current) =
    if current.channel == a.channel
    then return current
    else close_assignment (closed_assignment actor reason channel_changed now current)
      >> open_assignment env a snapshot_id now

unfoldable pub assign_channel_to_zone :
    ChannelEnv → ℕ → ℕ → ℕ → Option ℕ → Text → ℕ → ℕ → ℕ → C ZoneChannelAssignment
unfolding load_company_zone load_channel change_assignment
assign_channel_to_zone env company zone channel actor reason new_id snapshot_id now =
    load_company_zone company zone >>= λ z. load_channel channel >>= λ c.
    gets (λ db. zone_is_archived z.status || has_archived_site z db.store.sites) >>= λ archived.
    raise_if archived zone_channel_assignment_invalid
    >> raise_if (not (is_assignable company c)) zone_channel_assignment_invalid
    >> gets (λ db. is_none (latest_channel_snapshot db.snapshots c.id))
    >>= λ unpublished.
        raise_if unpublished zone_channel_assignment_invalid
        >> gets (λ db. active_assignment db.assignments z.id)
        >>= change_assignment env (opened_assignment company z.id c.id actor reason new_id now)
            actor reason snapshot_id now

abbrev pub withdraw :
    ChannelEnv
    → Zone
    → Option ℕ
    → Text
    → ℕ
    → ℕ
    → Option ZoneChannelAssignment
    → C (Option ZoneChannelAssignment)
withdraw env z actor reason snapshot_id now none = return none
withdraw env z actor reason snapshot_id now (some current) =
    let closed = closed_assignment actor reason channel_withdrawn now current in
    close_assignment closed
    >> create_zone_operational_snapshot env z.id channel_unassigned snapshot_id now
    >> return (some closed)

unfoldable pub unassign_channel_from_zone :
    ChannelEnv → ℕ → ℕ → Option ℕ → Text → ℕ → ℕ → C (Option ZoneChannelAssignment)
unfolding load_company_zone create_zone_operational_snapshot
unassign_channel_from_zone env company zone actor reason snapshot_id now =
    load_company_zone company zone >>= λ z.
    gets (λ db. active_assignment db.assignments z.id)
    >>= withdraw env z actor reason snapshot_id now
