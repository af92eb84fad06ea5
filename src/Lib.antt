-- ===== src/Lib.antt =====
-- BrandyManager, the back end: playlists, their scheduling on zones, the devices that play them, and the
-- organizations and permissions around them.
--
-- The program is the Django project under back_django/backend. A company has sites, their zones, and
-- players (devices) in the zones. Its schedules are made of weekly blocks and of exceptions on dates;
-- assignments put a schedule on a scope: the company, a site or a zone. Scheduling
-- (back_django/backend/apps/scheduling) changes schedules under an optimistic revision and answers which
-- content a zone plays at an instant. Devices (back_django/backend/apps/devices) are created within
-- the limit of the plan (apps/billing), are activated with a code, keep a secret that they rotate,
-- and are sent commands. Blocks play playlists (apps/playlists), numbered lists of the songs that the
-- catalog (apps/catalog) gives a company access to, published as numbered snapshots. A channel is a
-- set of playlists with a policy, published in the same way and assigned to zones; what a zone plays
-- from (apps/playback) is a snapshot of its channel and its schedule, made anew when one of them
-- changes. Organizations (apps/organizations) create and archive sites and zones and invite members;
-- authorization (apps/authorization) says what a member may do, and every view asks it.
--
-- Files:
--   Prelude (Tests, Int, Lists, Sorting): what the other modules share.
--   Table: a table as the list of its rows, with the ORM's statements.
--   Result, Transaction: errors, and a service as a transaction. Each service is one
--     `transaction.atomic` block, so an error carries no database: what was written is rolled back. The
--     rows are locked, so services run one after another.
--   Models (Organizations, Playlists, Catalog, Scheduling, Channels): rows, and `clean` of the models
--     of scheduling; what other models check stands with the operations that save their rows.
--   Store: the tables of scheduling. Devices/Store: those of the devices app; each only reads sites and zones.
--   Billing: Subscription.effective_limits, has_functional_access, get_current_subscription_for_company.
--   Scheduling/Selectors, Checks, Blocks, Exceptions, Assignments, Resolution: apps/scheduling/services.py
--     and selectors.py under the source's names; resolve_scope_from_payload with
--     apps/authorization/services.py. Scheduling/Requests gathers the operations in one type.
--   Scheduling/Revision, Frames, Rows, BlockConflicts, ExceptionConflicts, AssignmentConflicts, Order,
--     Current, Ranks, Winner, Coverage, Retirement: proofs.
--   Devices/Models, Lifecycle, Administration, Activation, Credentials, Commands, Telemetry:
--     apps/devices/services.py and models.py. Devices/Requests gathers the operations that write
--     devices, zones, codes and credentials.
--   Devices/Codes, SingleUse, Writes, Revoked, Limit, Delivery, Rotation, Families,
--     Sequence: proofs.
--   Text: Python's `str`. Models/Catalog, Playlists/Catalog: apps/catalog/models.py and selectors.py, the
--     songs that a company may use.
--   Access/Rows, Permissions, Require: apps/authorization/services.py. Access/Overrides, Isolation,
--     Authorized: proofs.
--   Playlists/Store, Codes, Items, Lifecycle, Publishing: apps/playlists/services.py under the source's
--     names. Playlists/Requests gathers the operations, with what serializers.py and views.py check.
--   Playlists/Constraints, Numbering, Renumbering, Creating, Numbered, Reordering, Removing, Steps, Copies,
--     Everything, Order, Decimal, CodeLoop, Published, Republishing, Limits: proofs.
--   Channels/Payload, Store, Codes, Rows, Lifecycle, Contents, Hashing, Publishing, Assigning: channels, and
--     their assignment to zones, of apps/playlists/services.py. Channels/Requests gathers the operations.
--     Channels/Quiet, Served, Stale, Everything, InUse, Playing, Published, Played, CodeLoop,
--     Replaced, Assigned: proofs.
--   Playback/Payload, Snapshots: create_zone_operational_snapshot of apps/playback/services.py. It reads
--     the tables of channels and of scheduling. Playback/Served, Growth, Contents, Versions:
--     proofs.
--   Sites/Codes, Services: sites and zones of apps/organizations/services.py. Sites/Closed, Everything, Limits:
--     proofs.
--   Invitations/Rows, Scopes, Services, Accept: invitations of apps/organizations/services.py.
--     Invitations/Open, OneOpen, SingleUse: proofs.
--   Scheduling/Tests, Devices/Tests, Playlists/Tests, Channels/Tests, Access/Tests, Sites/Tests,
--     Invitations/Tests: runs on small databases.
--
-- Conventions: identifiers are UUIDs, which are only compared, so natural numbers stand for them.
-- Instants, durations and times of day are microseconds, dates are ordinals. The keys that `uuid4`
-- draws, the instants of `auto_now_add` and the clock are arguments; an operation reads the clock
-- once. Texts whose characters matter are ASCII code points. Columns that no modelled code reads are
-- left out. A row that a view has loaded and hands to a service is given by its key, and read in the
-- transaction. `Env`, `DeviceEnv`, `PlaylistEnv`, `ChannelEnv`, `SiteEnv` and `InvitationEnv` hold
-- what the code takes from outside: Django's checks of single columns, of passwords and addresses,
-- `slugify`, the text of a UUID, the time zone database, the settings, the database's order of names,
-- SHA-256 (of the JSON text of a payload, too) and the keyed hash. No theorem assumes anything of
-- them. Each `save` of the program runs `full_clean` first. The model keeps what it checks of the
-- columns and relations that an operation fills, where the operation has not checked it before; the
-- columns that an operation does not write have passed when they were written. The limit of 2 ^ 31 on
-- numbers is kept for the versions of operational snapshots alone, and the address of a client, the
-- columns of a command and those of snapshots of playlists and channels are not checked: there the
-- program may refuse a request that the model accepts. Every function is structurally recursive, but
-- for four on fuel: `next_code`, `next_channel_code` and `unused_code`, the searches for an unused
-- code, with as many rounds as codes in use, and two; and the digits of a number, as many as the
-- number, and one.
--
-- Not modelled: publish_schedule and list_next_occurrences, the manifests and the runtime of players
-- (apps/playback), the profile of a company, changes to its members and their transfer, users beyond
-- their access, the searches of the catalog, and the HTTP layer beyond the checks of playlists'
-- items.
pub mod Prelude
pub mod Table
pub mod Result
pub mod Models
pub mod Transaction
pub mod Store
pub mod Text
pub mod Billing
pub mod Access
pub mod Scheduling
pub mod Devices
pub mod Playlists
pub mod Sites
pub mod Invitations
pub mod Channels
pub mod Playback
