-- ===== src/Match/Resolve.antt =====
-- internal/match/matcher.go: the stop that an update is about, its delays, and the observation.
pub mod Stops
pub mod Delays
use headway.Base.{
  ℕ, ℤ, pos, negsuc, ◌-ℤ◌, scale, div_ℤ, int32, int16, uint32, ltb_ℤ, eqb_ℤ, String, str_eq, Bool,
  true, false, ◌||◌, ◌&&◌, not, List, [], ◌∷◌, Option, none, some, if◌then◌else◌, leb, ltb, ◌==◌,
}
use headway.ServiceTime.{Time, Date, Zone, second, at_service_offset}
use headway.Gtfsrt.{RawUpdate}
use headway.Ingest.{Observation}
use headway.Match.Schedule.{StopTime, Trip, no_time}
use headway.Match.Counts.{Options}

-- The first call with the sequence number.
unfoldable pub find_sequence : ℕ → List StopTime → Option StopTime
find_sequence n [] = none
find_sequence n (st ∷ sts) = if uint32 st.seq == n then some st else find_sequence n sts

-- A sequence number that names another stop than the producer's is no match.
unfoldable pub by_sequence : String → Option StopTime → Option StopTime
by_sequence id none = none
by_sequence id (some st) = if str_eq id "" || str_eq id st.stop_id then some st else none

-- The loop over the calls at the stop; true is a second call there.
unfoldable pub find_stop : String → Option StopTime → List StopTime → Option StopTime × Bool
find_stop id found [] = (found, false)
find_stop id found (st ∷ sts) = elim (str_eq st.stop_id id) [
  | true ↦ elim found [ some earlier ↦ (none, true) | none ↦ find_stop id (some st) sts ]
  | false ↦ find_stop id found sts
]

unfoldable pub by_stop_id : Trip → String → Option StopTime × Bool
unfolding find_stop
by_stop_id t id = if str_eq id "" then (none, false) else find_stop id none t.stops

unfoldable pub sequenced : Trip → RawUpdate → Option StopTime
unfolding find_sequence by_sequence
sequenced t u = elim u.stop_sequence [
  | none ↦ none
  | some n ↦ by_sequence u.stop_id (find_sequence n t.stops)
]

unfoldable pub resolve_stop : Trip → RawUpdate → Option StopTime × Bool
unfolding sequenced by_stop_id
resolve_stop t u = elim (sequenced t u) [
  | some st ↦ (some st, false)
  | none ↦ by_stop_id t u.stop_id
]

-- What a boarding passenger sees: the departure.
abbrev pub observed : Option ℤ → Option ℤ → Option ℤ
observed arr none = arr
observed arr (some dep) = some dep

-- The instant an update is about.
unfoldable pub reference : RawUpdate → Time
reference u = elim u.departure_time [
  | some t ↦ scale t second
  | none ↦ elim u.arrival_time [ some t ↦ scale t second | none ↦ u.header_ts ]
]

-- GTFS has the directions 0 and 1 only.
unfoldable pub direction : Option ℕ → Option ℤ
direction none = none
direction (some d) = if leb d 1 then some (int16 (pos d)) else none

-- The observation as the feed alone describes it.
unfoldable pub base : RawUpdate → Date → Observation
unfolding direction
base u d = record {
  service_date = d;
  feed_id = u.feed_id;
  trip_id = u.trip_id;
  stop_id = u.stop_id;
  feed_ts = u.header_ts;
  stop_sequence = none;
  route_id = u.route_id;
  direction_id = direction u.direction_id;
  arrival_delay_s = u.arrival_delay;
  departure_delay_s = u.departure_delay;
  observed_delay_s = observed u.arrival_delay u.departure_delay;
  trip_rel = u.trip_rel;
  stop_time_rel = u.stop_time_rel;
  matched = false;
  vehicle_id = u.vehicle_id;
  scheduled_at = none;
}

abbrev or_else : Option ℤ → Option ℤ → Option ℤ
or_else (some a) b = some a
or_else none b = b

-- What the timetable knows about the trip.
unfoldable pub matched : Trip → Observation → Observation
matched t o = record o {
  matched = true;
  route_id = t.route_id;
  direction_id = or_else t.direction_id o.direction_id;
}

-- The departure, else the arrival.
unfoldable pub scheduled_s : StopTime → ℤ
scheduled_s st = if eqb_ℤ st.dep_s no_time then st.arr_s else st.dep_s

-- -v of an int32
abbrev pub negated : ℤ → ℤ
negated v = int32 (pos 0 -ℤ v)

-- Apart by more than the tolerance.
unfoldable pub disagrees : Options → ℤ → ℤ → Bool
disagrees opts computed delay =
    let diff = int32 (computed -ℤ delay) in
    ltb_ℤ opts.reconcile_s diff || ltb_ℤ diff (negated opts.reconcile_s)

module _ (loc : Zone) where
  unfoldable pub scheduled_at : Date → StopTime → Option Time
  unfolding scheduled_s
  scheduled_at d st =
      let s = scheduled_s st in if eqb_ℤ s no_time then none else some (at_service_offset loc d s)

  -- The delay that an absolute time amounts to; both subtractions of seconds keep 32 bits.
  unfoldable pub computed_delay : ℤ → Date → ℤ → ℤ
  computed_delay event d s = int32 (event -ℤ div_ℤ (at_service_offset loc d s) second)

  -- One event's delay: the producer's, or else what its time amounts to, where the stop is timed.
  unfoldable pub derive : Options → Option ℤ → Option ℤ → Date → ℤ → Option ℤ × Bool
  unfolding computed_delay disagrees
  derive opts delay none d s = (delay, false)
  derive opts delay (some event) d s =
      let computed = computed_delay event d s in
      if eqb_ℤ s no_time then (delay, false) else elim delay [
        | none ↦ (some computed, false)
        | some given ↦ (some given, disagrees opts computed given)
      ]
