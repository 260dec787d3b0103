-- ===== src/Gtfsrt.antt =====
-- internal/gtfsrt/types.go: one decoded update, the reasons for dropping one, and a decoded feed.
pub mod Decode
pub mod Accounting
pub mod Quality
use headway.Base.{ℕ, suc, ◌+◌, ℤ, pos, ◌-ℤ◌, String, Bool, List, Option}
use headway.ServiceTime.{Time, Duration}

-- Schedule relationships are plain integers, and these are names for some of them.
abbrev pub trip_scheduled : ℤ
trip_scheduled = pos 0

abbrev pub trip_added : ℤ
trip_added = pos 1

abbrev pub trip_unscheduled : ℤ
trip_unscheduled = pos 2

abbrev pub trip_canceled : ℤ
trip_canceled = pos 3

abbrev pub trip_replacement : ℤ
trip_replacement = pos 5

abbrev pub trip_duplicated : ℤ
trip_duplicated = pos 6

abbrev pub trip_deleted : ℤ
trip_deleted = pos 7

abbrev pub stop_scheduled : ℤ
stop_scheduled = pos 0

abbrev pub stop_skipped : ℤ
stop_skipped = pos 1

abbrev pub stop_no_data : ℤ
stop_no_data = pos 2

abbrev pub stop_unscheduled : ℤ
stop_unscheduled = pos 3

-- `none` is a nil pointer: the producer did not send the field.
pub record RawUpdate : Type 0 where
  pub feed_id : String
  pub header_ts : Time
  pub fetched_at : Time
  pub entity_id : String
  pub trip_id : String
  pub route_id : String
  pub start_date : String
  pub start_time : String
  pub direction_id : Option ℕ
  pub vehicle_id : String
  pub trip_rel : ℤ
  pub trip_level : Bool
  pub stop_sequence : Option ℕ
  pub stop_id : String
  pub stop_time_rel : ℤ
  pub arrival_delay : Option ℤ
  pub arrival_time : Option ℤ
  pub departure_delay : Option ℤ
  pub departure_time : Option ℤ
  pub uncertainty : Option ℤ

pub data DropReason : Type 0 where
  not_trip_update no_trip_id no_stop_anchor no_time : DropReason

-- The map from each reason to its count; a missing entry counts 0.
pub record Dropped : Type 0 where
  pub not_trip_update : ℕ
  pub no_trip_id : ℕ
  pub no_stop_anchor : ℕ
  pub no_time : ℕ

-- out.Dropped[reason]++
unfoldable pub bump : DropReason → Dropped → Dropped
bump DropReason.not_trip_update d = record d { not_trip_update = suc d.not_trip_update }
bump DropReason.no_trip_id d = record d { no_trip_id = suc d.no_trip_id }
bump DropReason.no_stop_anchor d = record d { no_stop_anchor = suc d.no_stop_anchor }
bump DropReason.no_time d = record d { no_time = suc d.no_time }

pub record DecodedFeed : Type 0 where
  pub feed_id : String
  pub header_ts : Time
  pub fetched_at : Time
  pub header_ts_missing : Bool
  pub updates : List RawUpdate
  pub entities : ℕ
  pub dropped : Dropped

unfoldable pub total : Dropped → ℕ
total d = d.not_trip_update + d.no_trip_id + d.no_stop_anchor + d.no_time

unfoldable pub total_dropped : DecodedFeed → ℕ
unfolding total
total_dropped d = total d.dropped

-- How stale the data was when it arrived.
unfoldable pub age : DecodedFeed → Duration
age d = d.fetched_at -ℤ d.header_ts
