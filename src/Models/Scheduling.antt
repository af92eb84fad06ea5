-- ===== src/Models/Scheduling.antt =====
-- apps/scheduling/models.py: the rows and the validation that `full_clean` runs on them. Dates are
-- day numbers, times of day are microseconds since midnight, instants are microseconds.
use brandy_manager_back.Prelude.{
  ℕ, ℤ, String, Option, none, some, Bool, true, false, not, ◌&&◌, ◌||◌, ltb, leb, ◌==◌, is_none,
  is_some, if◌then◌else◌,
}
use brandy_manager_back.Table.{Row}
use brandy_manager_back.Models.Organizations.{ResourceScope}

pub data ScheduleStatus : Type 0 where
  draft published disabled archived : ScheduleStatus

pub record Schedule : Type 0 where
  pub id : ℕ
  pub company : ℕ
  pub name : String
  pub description : String
  pub timezone : String
  pub status : ScheduleStatus
  pub valid_from : Option ℕ
  pub valid_until : Option ℕ
  pub version : ℕ
  pub revision : ℕ
  pub published_at : Option ℕ

pub data ContentType : Type 0 where
  channel playlist silence : ContentType

pub record ScheduleBlock : Type 0 where
  pub id : ℕ
  pub schedule : ℕ
  pub day_of_week : ℕ
  pub start_time : ℕ
  pub end_time : ℕ
  pub content_type : ContentType
  pub channel : Option ℕ
  pub playlist : Option ℕ
  pub priority : ℤ
  pub volume_override : Option ℕ
  pub created_at : ℕ

pub data Action : Type 0 where
  replace silence volume_override : Action

pub record ScheduleException : Type 0 where
  pub id : ℕ
  pub schedule : ℕ
  pub date : ℕ
  pub start_time : ℕ
  pub end_time : ℕ
  pub action : Action
  pub channel : Option ℕ
  pub playlist : Option ℕ
  pub priority : ℤ
  pub volume_override : Option ℕ
  pub description : String
  pub created_at : ℕ

pub record ScheduleAssignment : Type 0 where
  pub id : ℕ
  pub company : ℕ
  pub schedule : ℕ
  pub scope : ℕ
  pub priority : ℤ
  pub is_locked : Bool
  pub starts_at : Option ℕ
  pub ends_at : Option ℕ
  pub is_active : Bool
  pub created_at : ℕ

instance abbrev pub schedule_row : Row Schedule
schedule_row = record { pk = λ s. s.id }

instance abbrev pub block_row : Row ScheduleBlock
block_row = record { pk = λ b. b.id }

instance abbrev pub exception_row : Row ScheduleException
exception_row = record { pk = λ e. e.id }

instance abbrev pub assignment_row : Row ScheduleAssignment
assignment_row = record { pk = λ a. a.id }

abbrev pub schedule_is_published : ScheduleStatus → Bool
schedule_is_published ScheduleStatus.published = true
schedule_is_published _ = false

-- Python's `a and b and b < a` on two nullable values.
abbrev pub both_and_lt : Option ℕ → Option ℕ → Bool
both_and_lt (some a) (some b) = ltb b a
both_and_lt _ _ = false

-- `Schedule.clean`; the answer is the field at fault.
unfoldable pub schedule_clean : Schedule → Option String
schedule_clean s = if both_and_lt s.valid_from s.valid_until then some "valid_until" else none

-- `ScheduleBlock.clean` and the check constraints of its `Meta`, in the order of `full_clean`.
abbrev pub in_volume_range : Option ℕ → Bool
in_volume_range none = true
in_volume_range (some v) = leb v 100

abbrev pub content_target : ContentType → Option ℕ → Option ℕ → Bool
content_target ContentType.channel c p = is_some c && is_none p
content_target ContentType.playlist c p = is_none c && is_some p
content_target ContentType.silence c p = is_none c && is_none p

unfoldable pub block_clean : ScheduleBlock → Option String
block_clean b =
    if leb b.end_time b.start_time
    then some "end_time"
    else if not (leb b.day_of_week 6)
    then some "schedule_block_day_range"
    else if not (in_volume_range b.volume_override)
    then some "schedule_block_volume_range"
    else if not (content_target b.content_type b.channel b.playlist)
    then some "schedule_block_content_target"
    else none

abbrev pub is_playlist_content : ContentType → Bool
is_playlist_content ContentType.playlist = true
is_playlist_content _ = false

abbrev pub is_silence_content : ContentType → Bool
is_silence_content ContentType.silence = true
is_silence_content _ = false

abbrev pub is_replace : Action → Bool
is_replace Action.replace = true
is_replace _ = false

abbrev pub is_silence : Action → Bool
is_silence Action.silence = true
is_silence _ = false

abbrev pub is_volume_override : Action → Bool
is_volume_override Action.volume_override = true
is_volume_override _ = false

-- `ScheduleException.clean`
unfoldable pub exception_clean : ScheduleException → Option String
exception_clean e =
    if leb e.end_time e.start_time
    then some "end_time"
    else if not (in_volume_range e.volume_override)
    then some "volume_override"
    else if is_replace e.action && is_none e.playlist
    then some "playlist"
    else if is_silence e.action && (is_some e.playlist || is_some e.channel)
    then some "action"
    else if is_volume_override e.action && is_none e.volume_override
    then some "volume_override"
    else none

-- `validate_date_range` of shared/db/models.py: `ends_at <= starts_at` is refused.
abbrev pub validate_date_range : Option ℕ → Option ℕ → Bool
validate_date_range (some s) (some e) = ltb s e
validate_date_range _ _ = true

-- `ScheduleAssignment.clean`, given the rows that its foreign keys point to.
unfoldable pub assignment_clean : Schedule → ResourceScope → ScheduleAssignment → Option String
assignment_clean schedule scope a =
    if not (validate_date_range a.starts_at a.ends_at)
    then some "ends_at"
    else if not (schedule.company == a.company)
    then some "schedule"
    else if not (scope.company == a.company)
    then some "scope"
    else none
