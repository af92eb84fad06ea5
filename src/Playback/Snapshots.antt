-- ===== src/Playback/Snapshots.antt =====
-- apps/playback/services.py, `create_zone_operational_snapshot`: a new version of what a zone plays.
use mathlib.Core.Option
use brandy_manager_back.Prelude.{
  ℕ, ◌+◌, Option, none, some, List, Bool, ◌&&◌, ◌||◌, ltb, ◌==◌, exists, first, select, is_some,
  sort_by, or_else, not, leb, true, false, is_none, same_key,
}
use brandy_manager_back.Table.{get, insert, update}
use brandy_manager_back.Result.{does_not_exist, validation_error}
use brandy_manager_back.Text.{Text}
use brandy_manager_back.Models.Organizations.{Zone, zone_row}
use brandy_manager_back.Models.Scheduling.{Schedule, schedule_row}
use brandy_manager_back.Models.Channels.{
  Channel, channel_row, ChannelSnapshot, ZoneChannelAssignment, ScheduleSnapshot, ZonePayload,
  OperationalStatus, ZoneOperationalSnapshot, operational_is_ready, operational_row,
  latest_channel_snapshot, latest_schedule_snapshot, active_assignment,
}
use brandy_manager_back.Scheduling.Resolution.{
  Resolved, by_exception, by_block, without_content, resolve_effective_schedule_for_zone,
}
use brandy_manager_back.Channels.Store.{
  ChannelDb, ChannelEnv, C, ◌>>=◌, ◌>>◌, return, gets, or_raise, modify, raise_if,
}
use brandy_manager_back.Playback.Payload.{zone_operational_snapshot_payload}

-- `effective_schedule.get("schedule")`
abbrev pub effective_schedule : Resolved → Option Schedule
effective_schedule (by_exception c e) = some c.schedule
effective_schedule (by_block c b) = some c.schedule
effective_schedule (without_content none) = none
effective_schedule (without_content (some c)) = some c.schedule

-- the snapshot of the schedule that the zone follows
unfoldable pub effective_schedule_snapshot :
    ChannelEnv → ChannelDb → Zone → ℕ → Option ScheduleSnapshot
unfolding resolve_effective_schedule_for_zone
effective_schedule_snapshot env db zone now =
    elim (effective_schedule
      (resolve_effective_schedule_for_zone env.scheduling db.store zone now)) [
        | none ↦ none
        | some s ↦ latest_schedule_snapshot db.schedule_snapshots s.id
      ]

abbrev pub assigned_snapshot :
    List ChannelSnapshot → Option ZoneChannelAssignment → Option ChannelSnapshot
assigned_snapshot snapshots none = none
assigned_snapshot snapshots (some a) = latest_channel_snapshot snapshots a.channel

-- `order_by("-version").values_list("version", flat=True).first() or 0`
abbrev pub newer_operational : ZoneOperationalSnapshot → ZoneOperationalSnapshot → Bool
newer_operational a b = ltb b.version a.version

abbrev pub of_zone : ℕ → ZoneOperationalSnapshot → Bool
of_zone zone o = o.zone == zone

unfoldable pub latest_version : ℕ → List ZoneOperationalSnapshot → ℕ
unfolding sort_by
latest_version zone rows =
    or_else
      (Option.map (λ o. o.version) (first (sort_by newer_operational (select (of_zone zone) rows))))
      0

-- `.filter(zone=zone, status=READY).update(status=SUPERSEDED)`
unfoldable pub supersede : ℕ → List ZoneOperationalSnapshot → List ZoneOperationalSnapshot
supersede zone rows =
    update (λ o. of_zone zone o && operational_is_ready o.status)
      (λ o. record o { status = OperationalStatus.superseded }) rows

-- The channel of a key is global, or of the company.
abbrev pub channel_is_usable : ℕ → Option Channel → Bool
channel_is_usable company none = false
channel_is_usable company (some c) =
    is_none c.owner_company || same_key c.owner_company (some company)

-- `ZoneOperationalSnapshot.clean`, by its fields; the company of the row is its zone's.
abbrev pub clean_channel : ChannelDb → ZoneOperationalSnapshot → Bool
clean_channel db o = elim o.channel [
  | none ↦ true
  | some k ↦ channel_is_usable o.company (get k db.channels)
]

abbrev pub clean_channel_snapshot : ZoneOperationalSnapshot → Option ChannelSnapshot → Bool
clean_channel_snapshot o none = true
clean_channel_snapshot o (some c) = same_key o.channel (some c.channel)

abbrev pub is_of_company : ℕ → Option Schedule → Bool
is_of_company company none = false
is_of_company company (some s) = s.company == company

abbrev pub clean_schedule_snapshot :
    ChannelDb → ZoneOperationalSnapshot → Option ScheduleSnapshot → Bool
clean_schedule_snapshot db o none = true
clean_schedule_snapshot db o (some s) = is_of_company o.company (get s.schedule db.store.schedules)

-- `ZoneOperationalSnapshot.objects.create(...)`, with the two snapshots that it is given. The version is
-- a `PositiveIntegerField`.
unfoldable pub insert_operational :
    ZoneOperationalSnapshot → Option ChannelSnapshot → Option ScheduleSnapshot → C (Unit {0})
insert_operational o c s =
    raise_if (not (leb o.version 2147483647)) (validation_error "version")
    >> gets (λ db. clean_channel db o)
    >>= λ channel.
        raise_if (not channel) (validation_error "channel")
        >> raise_if (not (clean_channel_snapshot o c)) (validation_error "channel_snapshot")
        >> gets (λ db. clean_schedule_snapshot db o s)
        >>= λ schedule.
            raise_if (not schedule) (validation_error "schedule_snapshot")
            >> gets (λ db.
              is_some (get o.id db.operational)
              || exists (λ p. of_zone o.zone p && p.version == o.version) db.operational)
            >>= λ broken.
                raise_if broken (validation_error "__all__")
                >> modify (λ db. record db { operational = insert o db.operational })

abbrev pub new_operational :
    ChannelEnv
    → Zone
    → ℕ
    → Option ZoneChannelAssignment
    → Option ChannelSnapshot
    → Option ScheduleSnapshot
    → ZonePayload
    → Text
    → ℕ
    → ℕ
    → ZoneOperationalSnapshot
new_operational env zone version a c s payload reason new_id now = record {
  id = new_id;
  company = zone.company;
  zone = zone.id;
  version = version;
  status = OperationalStatus.ready;
  channel = Option.map (λ x. x.channel) a;
  channel_snapshot = Option.map (λ x. x.id) c;
  schedule_snapshot = Option.map (λ x. x.id) s;
  checksum = env.zone_digest payload;
  generated_at = now;
  reason = reason;
  snapshot_data = payload;
}

-- The new row of a zone in a database.
unfoldable pub operational_for :
    ChannelEnv → ChannelDb → Zone → Text → ℕ → ℕ → ZoneOperationalSnapshot
unfolding effective_schedule_snapshot zone_operational_snapshot_payload latest_version
operational_for env db zone reason new_id now =
    let a = active_assignment db.assignments zone.id in
    let c = assigned_snapshot db.snapshots a in
    let s = effective_schedule_snapshot env db zone now in
    new_operational env zone (latest_version zone.id db.operational + 1) a c s
      (zone_operational_snapshot_payload db zone a c s now) reason new_id now

unfoldable pub create_zone_operational_snapshot :
    ChannelEnv → ℕ → Text → ℕ → ℕ → C ZoneOperationalSnapshot
unfolding operational_for supersede insert_operational effective_schedule_snapshot
create_zone_operational_snapshot env k reason new_id now =
    gets (λ db. get k db.store.zones) >>= λ found. or_raise found does_not_exist >>= λ zone.
    gets (λ db. operational_for env db zone reason new_id now) >>= λ snapshot.
    gets (λ db. assigned_snapshot db.snapshots (active_assignment db.assignments zone.id)) >>= λ c.
    gets (λ db. effective_schedule_snapshot env db zone now) >>= λ s.
    modify (λ db. record db { operational = supersede zone.id db.operational })
    >> insert_operational snapshot c s
    >> return snapshot
