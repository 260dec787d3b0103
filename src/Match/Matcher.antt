-- ===== src/Match/Matcher.antt =====
-- internal/match/matcher.go: `Match`, which resolves one poll's updates, and the matcher that holds
-- the schedules. The pointers that the source swaps atomically are plain values here.
pub mod Balance
pub mod LastWord
pub mod Outcome
use headway.Base.{
  ℕ, zero, suc, ◌+◌, ℤ, pos, eqb_ℤ, String, str_eq, Bool, true, false, ◌||◌, ◌&&◌, not, List, [],
  ◌∷◌, ◌++◌, Option, none, some, if◌then◌else◌, length, set, uint32, ◌==◌,
}
use headway.Base.Eq.{Eq, string_eq}
use headway.Base.Dict.{Dict, get, put}
use headway.ServiceTime.{Time, Date, Zone}
use headway.Gtfsrt.{RawUpdate, trip_added, trip_canceled}
use headway.Ingest.{Observation, Key, key, key_eq}
use headway.Match.Schedule.{StopTime, Trip, Schedule, no_time, trip, stop, has_stops}
use headway.Match.Counts.{Counts, zero_counts, Options}
use headway.Match.Resolve.{
  resolve_stop, reference, base, matched, scheduled_s, scheduled_at, derive, observed,
}
use headway.Match.Dates.{newest, pick_date, candidates}

-- The variables of `Match`: `c`, `out`, and `at`, the place of each key in `out`.
pub record Run : Type 0 where
  pub c : Counts
  pub out : List Observation
  pub at : Dict Key ℕ

abbrev pub init_run : Run
init_run = record { c = zero_counts; out = []; at = [] }

-- The closure `add`: a later observation of a key replaces the earlier one in place.
unfoldable pub add : Observation → Run → Run
add o r = elim (get (key o) r.at) [
  | some i ↦ record r { out = set r.out i o; c = record r.c { duplicates = suc r.c.duplicates } }
  | none ↦ record r { at = put (key o) (length r.out) r.at; out = r.out ++ o ∷ [] }
]

-- A change of the counts alone.
abbrev pub count : (Counts → Counts) → Run → Run
count f r = record r { c = f r.c }

abbrev pub tally : Bool → ℕ → ℕ
tally true n = suc n
tally false n = n

-- The stop that the timetable's stops lack.
unfoldable pub is_unknown_stop : Option Schedule → RawUpdate → Bool
is_unknown_stop none u = false
is_unknown_stop (some s) u =
    if str_eq u.stop_id ""
    then false
    else has_stops s && elim (stop s u.stop_id) [ none ↦ true | some name ↦ false ]

unfoldable pub count_unknown_stop : Option Schedule → RawUpdate → Run → Run
unfolding is_unknown_stop
count_unknown_stop sched u =
    count (λ c. record c { unknown_stop = tally (is_unknown_stop sched u) c.unknown_stop })

-- The trip, with the schedule that has it.
unfoldable pub find_trip : Option Schedule → String → Option (Schedule × Trip)
find_trip none id = none
find_trip (some s) id = elim (trip s id) [ none ↦ none | some t ↦ some (s, t) ]

-- Why a trip is not known.
unfoldable pub count_unmatched : Option Schedule → RawUpdate → Counts → Counts
count_unmatched none u c = record c { no_schedule = suc c.no_schedule }
count_unmatched (some s) u c =
    if eqb_ℤ u.trip_rel trip_added
    then record c { added = suc c.added }
    else record c { unknown_trip = suc c.unknown_trip }

-- trip == nil
unfoldable pub match_unknown : Option Schedule → List Date → RawUpdate → Run → Run
unfolding count_unmatched add
match_unknown sched cands u r =
    if u.trip_level
    then count (λ c. record c { trip_level_skipped = suc c.trip_level_skipped }) r
    else if str_eq u.stop_id ""
    then count (λ c. record c { no_stop_id = suc c.no_stop_id }) r
    else add (base u (newest cands)) (count (count_unmatched sched u) r)

-- A stop's sequence came from the update's own.
abbrev pub is_by_sequence : RawUpdate → StopTime → Bool
is_by_sequence u st = elim u.stop_sequence [ none ↦ false | some n ↦ uint32 st.seq == n ]

module _ (loc : Zone) where
  -- One stop of a cancelled trip.
  unfoldable pub cancelled_stop : Trip → Date → RawUpdate → StopTime → Observation
  unfolding matched
  cancelled_stop t d u st = matched t (record (base u d) {
    stop_id = st.stop_id;
    stop_sequence = some st.seq;
    scheduled_at = scheduled_at loc d st;
    arrival_delay_s = none;
    departure_delay_s = none;
    observed_delay_s = none;
  })

  unfoldable pub cancel_stops : Trip → Date → RawUpdate → List StopTime → Run → Run
  unfolding cancelled_stop
  cancel_stops t d u [] r = r
  cancel_stops t d u (st ∷ sts) r = cancel_stops t d u sts (
      count (λ c. record c { cancelled_stops = suc c.cancelled_stops })
        (add (cancelled_stop t d u st) r))

  module _ (opts : Options) where
    -- The observation of a resolved stop, and whether a delay and a time disagreed.
    unfoldable pub full_observation :
        Schedule → Trip → List Date → RawUpdate → StopTime → Observation × Bool
    unfolding matched
    full_observation s t cands u st =
        let d = pick_date loc opts s t cands (reference u) (scheduled_s st) in
        let o = matched t (record (base u d) {
          stop_id = st.stop_id;
          stop_sequence = some st.seq;
          scheduled_at = scheduled_at loc d st;
        }) in
        let (arr, dis1) = derive loc opts u.arrival_delay u.arrival_time d st.arr_s in
        let (dep, dis2) = derive loc opts u.departure_delay u.departure_time d st.dep_s in
        (
          record o {
            arrival_delay_s = arr;
            departure_delay_s = dep;
            observed_delay_s = observed arr dep;
          },
          dis1 || dis2,
        )

    -- The trip is known and its stop is not.
    unfoldable pub trip_observation : Schedule → Trip → List Date → RawUpdate → Observation
    unfolding matched
    trip_observation s t cands u =
        matched t (base u (pick_date loc opts s t cands (reference u) no_time))

    unfoldable pub match_stop :
        Schedule → Trip → List Date → RawUpdate → Option StopTime × Bool → Run → Run
    unfolding full_observation trip_observation
    match_stop s t cands u (none, ambiguous) r =
        if str_eq u.stop_id ""
        then count (λ c. record c { no_stop_id = suc c.no_stop_id }) r
        else add (trip_observation s t cands u) (
            count
              (λ c. record c {
                trip_only = suc c.trip_only;
                ambiguous_stop = tally ambiguous c.ambiguous_stop;
              })
              r)
    match_stop s t cands u (some st, ambiguous) r =
        let (o, disagree) = full_observation s t cands u st in
        add o (
          count
            (λ c. record c {
              full_match = suc c.full_match;
              by_sequence = tally (is_by_sequence u st) c.by_sequence;
              delay_disagreements = tally disagree c.delay_disagreements;
            })
            r)

    unfoldable pub match_known : Schedule → Trip → List Date → RawUpdate → Run → Run
    unfolding cancel_stops match_stop
    match_known s t cands u r =
        if u.trip_level
        then (if eqb_ℤ u.trip_rel trip_canceled
            then cancel_stops t (pick_date loc opts s t cands u.header_ts no_time) u t.stops r
            else count (λ c. record c { trip_level_skipped = suc c.trip_level_skipped }) r)
        else match_stop s t cands u (resolve_stop t u) r

    unfoldable pub match_dated : Option Schedule → Option (List Date) → RawUpdate → Run → Run
    unfolding match_unknown match_known find_trip
    match_dated sched none u r = count (λ c. record c { bad_start_date = suc c.bad_start_date }) r
    match_dated sched (some cands) u r = elim (find_trip sched u.trip_id) [
      | none ↦ match_unknown sched cands u r
      | some (s, t) ↦ match_known s t cands u r
    ]

    -- The body of the loop.
    unfoldable pub match_update : Option Schedule → RawUpdate → Run → Run
    unfolding match_dated count_unknown_stop
    match_update sched u r =
        match_dated sched (candidates loc opts u) u (count_unknown_stop sched u r)

    unfoldable pub match_updates : Option Schedule → List RawUpdate → Run → Run
    match_updates sched [] r = r
    match_updates sched (u ∷ us) r = match_updates sched us (match_update sched u r)

    unfoldable pub match_poll : Option Schedule → List RawUpdate → List Observation × Counts
    match_poll sched us =
        let r = match_updates sched us (count (λ c. record c { updates = length us }) init_run) in
        (r.out, record r.c { observations = length r.out })

-- A nil pointer in a map's entry is `none` there.
pub record Matcher : Type 0 where
  pub opts : Options
  pub schedules : Dict String (Option Schedule)
  pub last : Dict String (Option Counts)

abbrev pub loaded_in {ℓ} : {A : Type ℓ} → Option (Option A) → Option A
loaded_in none = none
loaded_in (some p) = p

unfoldable pub add_feeds : List String → Matcher → Matcher
add_feeds [] m = m
add_feeds (id ∷ ids) m =
    add_feeds ids (record m { schedules = put id none m.schedules; last = put id none m.last })

unfoldable pub new_matcher : List String → Options → Matcher
unfolding add_feeds
new_matcher ids o = add_feeds ids (record { opts = o; schedules = []; last = [] })

-- A feed that the matcher was not built for is ignored.
unfoldable pub swap : Schedule → Matcher → Matcher
swap s m = elim (get s.feed_id m.schedules) [
  | none ↦ m
  | some old ↦ record m { schedules = put s.feed_id (some s) m.schedules }
]

unfoldable pub schedules_in : Dict String (Option Schedule) → List Schedule
schedules_in [] = []
schedules_in ((id, none) ∷ m) = schedules_in m
schedules_in ((id, some s) ∷ m) = s ∷ schedules_in m

unfoldable pub schedules : Matcher → List Schedule
unfolding schedules_in
schedules m = schedules_in m.schedules

unfoldable pub loaded : String → Matcher → ℤ
loaded id m = elim (loaded_in (get id m.schedules)) [ none ↦ pos 0 | some s ↦ s.version_id ]

unfoldable pub store_last : String → Counts → Matcher → Matcher
store_last id c m = elim (get id m.last) [
  | none ↦ m
  | some old ↦ record m { last = put id (some c) m.last }
]

-- `Match`
unfoldable pub match_feed :
    Zone → String → List RawUpdate → Matcher → (List Observation × Counts) × Matcher
unfolding match_poll store_last
match_feed loc id us m =
    let (out, c) = match_poll loc m.opts (loaded_in (get id m.schedules)) us in
    ((out, c), store_last id c m)

unfoldable pub last_counts : Dict String (Option Counts) → Dict String Counts
last_counts [] = []
last_counts ((id, none) ∷ m) = last_counts m
last_counts ((id, some c) ∷ m) = (id, c) ∷ last_counts m
