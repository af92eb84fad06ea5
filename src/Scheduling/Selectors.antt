-- ===== src/Scheduling/Selectors.antt =====
-- apps/scheduling/selectors.py (conflicts and applicability), and what scheduling reads of
-- apps/playlists/selectors.py.
use brandy_manager_back.Prelude.{
  ℕ, Option, none, some, List, Bool, true, not, ◌&&◌, ◌||◌, ltb, leb, ◌==◌, eqb_ℤ, is_none,
  same_key, select, exists,
}
use brandy_manager_back.Table.{get}
use brandy_manager_back.Models.Playlists.{
  latest_published, Playlist, PlaylistSnapshot, ContentAccessGrant, playlist_is_published,
  is_global, is_shared, playlist_row,
}
use brandy_manager_back.Models.Scheduling.{
  Schedule, ScheduleBlock, ScheduleException, ScheduleAssignment, schedule_is_published,
}
use brandy_manager_back.Store.{Db}

abbrev pub time_ranges_overlap : ℕ → ℕ → ℕ → ℕ → Bool
time_ranges_overlap start_a end_a start_b end_b = ltb start_a end_b && ltb start_b end_a

-- `other` is a row that `list_block_conflicts(block)` lists.
abbrev pub block_conflict : ScheduleBlock → ScheduleBlock → Bool
block_conflict block other =
    (other.schedule == block.schedule
      && other.day_of_week == block.day_of_week
      && eqb_ℤ other.priority block.priority)
    && (not (other.id == block.id)
        && time_ranges_overlap block.start_time block.end_time other.start_time other.end_time)

unfoldable pub list_block_conflicts : Db → ScheduleBlock → List ScheduleBlock
list_block_conflicts db block = select (block_conflict block) db.blocks

abbrev pub exception_conflict : ScheduleException → ScheduleException → Bool
exception_conflict exception other =
    (other.schedule == exception.schedule
      && other.date == exception.date
      && eqb_ℤ other.priority exception.priority)
    && (not (other.id == exception.id)
        && time_ranges_overlap exception.start_time exception.end_time other.start_time
            other.end_time)

unfoldable pub list_exception_conflicts : Db → ScheduleException → List ScheduleException
list_exception_conflicts db exception = select (exception_conflict exception) db.exceptions

-- `Q(starts_at__isnull=True) | Q(starts_at__lt=ends_at) if ends_at else Q()`
abbrev pub starts_before : Option ℕ → Option ℕ → Bool
starts_before starts_at none = true
starts_before none (some ends_at) = true
starts_before (some s) (some ends_at) = ltb s ends_at

-- `Q(ends_at__isnull=True) | Q(ends_at__gt=starts_at) if starts_at else Q()`
abbrev pub ends_after : Option ℕ → Option ℕ → Bool
ends_after ends_at none = true
ends_after none (some starts_at) = true
ends_after (some e) (some starts_at) = ltb starts_at e

abbrev pub assignment_conflict : ScheduleAssignment → ScheduleAssignment → Bool
assignment_conflict assignment other =
    (other.company == assignment.company
      && other.scope == assignment.scope
      && (other.is_active && eqb_ℤ other.priority assignment.priority))
    && (not (other.id == assignment.id)
        && (starts_before other.starts_at assignment.ends_at
            && ends_after other.ends_at assignment.starts_at))

unfoldable pub list_assignment_conflicts : Db → ScheduleAssignment → List ScheduleAssignment
list_assignment_conflicts db assignment = select (assignment_conflict assignment) db.assignments

-- `x is None or x <= at`, and the three other bounds.
abbrev pub none_or_le : Option ℕ → ℕ → Bool
none_or_le none at = true
none_or_le (some x) at = leb x at

abbrev pub none_or_gt : Option ℕ → ℕ → Bool
none_or_gt none at = true
none_or_gt (some x) at = ltb at x

abbrev pub none_or_ge : Option ℕ → ℕ → Bool
none_or_ge none at = true
none_or_ge (some x) at = leb at x

unfoldable pub assignment_applies_at : ScheduleAssignment → ℕ → Bool
assignment_applies_at a at = a.is_active && (none_or_le a.starts_at at && none_or_gt a.ends_at at)

unfoldable pub schedule_applies_on_date : Schedule → ℕ → Bool
schedule_applies_on_date s local_date =
    schedule_is_published s.status
    && (none_or_le s.valid_from local_date && none_or_ge s.valid_until local_date)

-- apps/playlists/selectors.py: `accessible_playlist_base_queryset` as a test on a row.
abbrev pub grants_playlist : ℕ → ℕ → ContentAccessGrant → Bool
grants_playlist company playlist g =
    g.company == company && (same_key g.playlist (some playlist) && is_none g.revoked_at)

unfoldable pub playlist_is_accessible : Db → ℕ → Playlist → Bool
playlist_is_accessible db company p =
    same_key p.owner_company (some company)
    || (is_none p.owner_company && (is_global p.visibility && playlist_is_published p.status)
        || is_shared p.visibility && exists (grants_playlist company p.id) db.grants)

unfoldable pub get_accessible_playlist_by_id : Db → ℕ → Option ℕ → Option Playlist
unfolding playlist_is_accessible
get_accessible_playlist_by_id db company none = none
get_accessible_playlist_by_id db company (some k) =
    get k (select (playlist_is_accessible db company) db.playlists)

unfoldable pub get_latest_published_snapshot : Db → ℕ → Option PlaylistSnapshot
get_latest_published_snapshot db playlist = latest_published db.playlist_snapshots playlist
