-- ===== src/Examples/Matching.antt =====
-- Tests of the timetable and of the matching of a poll.
use headway.Base.{
  ℕ, pos, ◌+ℤ◌, ◌-ℤ◌, ◌<ℤ◌, length, get_elem?, str_eq, true, false, List, [], ◌∷◌, none, some,
  if◌then◌else◌, ◌+◌, ◌≤◌, ◌≡◌, ◌↔◌, ◌⊎◌, arith,
}
use headway.ServiceTime.{Date}
use headway.Ingest.{Observation, Key, key}
use headway.Match.Schedule.{StopTime}
use headway.Match.Resolve.{resolve_stop, derive}
use headway.Match.Resolve.Stops.{Names, calls_at, only, resolve_stop_lem}
use headway.Match.Resolve.Delays.{scheduled_unix, derive_lem}
use headway.Match.Dates.{pick_date}
use headway.Match.Dates.Pick.{Among, runs, is_near, pick_date_lem}
use headway.Match.Matcher.{match_poll}
use headway.Match.Matcher.Balance.{told, offered, cancellations, match_poll_balances}
use headway.Match.Matcher.LastWord.{last_word}
use headway.Match.Matcher.Outcome.{said, match_poll-last_word}
use headway.Examples.Data.{east, timetable, trip_a, options, update_at, updates}

resolve_stop_lem_example :
    ((st : StopTime)
      → Names trip_a (update_at (some 1) "x" (pos 30)) st
      → resolve_stop trip_a (update_at (some 1) "x" (pos 30)) ≡ (some st, false))
    × (((st : StopTime) → ¬ Names trip_a (update_at (some 1) "x" (pos 30)) st)
        → resolve_stop trip_a (update_at (some 1) "x" (pos 30))
          ≡ (if str_eq "x" "" then (none, false) else only (calls_at "x" trip_a.stops)))
resolve_stop_lem_example = resolve_stop_lem trip_a (update_at (some 1) "x" (pos 30))

derive_lem_example :
    (derive east options none
        (some (scheduled_unix east (pos 19675) (pos 28800) +ℤ pos 90))
        (pos 19675)
        (pos 28800)
      ≡ (some (pos 90), false))
    × ((derive east options
          (some (pos 20))
          (some (scheduled_unix east (pos 19675) (pos 28800) +ℤ pos 90))
          (pos 19675)
          (pos 28800)).0
        ≡ some (pos 20))
    × (((derive east options
            (some (pos 20))
            (some (scheduled_unix east (pos 19675) (pos 28800) +ℤ pos 90))
            (pos 19675)
            (pos 28800)).1
          ≡ true)
        ↔ ((pos 60 +ℤ pos 20 <ℤ pos 90) ⊎ (pos 60 +ℤ pos 90 <ℤ pos 20)))
unfolding ◌-ℤ◌
derive_lem_example =
    derive_lem east options (pos 19675) (pos 28800) (pos 90) (pos 20) (λ e. cc)
      (omega arith, omega arith) (omega arith, omega arith) (omega arith, omega arith) (omega arith)

abbrev candidates_of_day : List Date
candidates_of_day = pos 19675 ∷ pos 19674 ∷ []

abbrev chosen_date : Date
chosen_date =
    pick_date east options timetable trip_a candidates_of_day (pos 1_700_000_000_000_000_000)
      (pos 28800)

pick_date_lem_example :
    Among
      (pick_date east options timetable trip_a candidates_of_day
        (pos 1_700_000_000_000_000_000)
        (pos 28800))
      candidates_of_day
    × ((e : Date)
        → Among e candidates_of_day
        → runs east options timetable trip_a (pos 1_700_000_000_000_000_000) (pos 28800) e ≡ true
        → runs east options timetable trip_a (pos 1_700_000_000_000_000_000) (pos 28800) chosen_date
          ≡ true)
    × ((e : Date)
        → Among e candidates_of_day
        → runs east options timetable trip_a (pos 1_700_000_000_000_000_000) (pos 28800) e ≡ true
        → is_near east options timetable trip_a (pos 1_700_000_000_000_000_000) (pos 28800) e ≡ true
        → (runs east options timetable trip_a
              (pos 1_700_000_000_000_000_000)
              (pos 28800)
              chosen_date
            ≡ true)
          × (is_near east options timetable trip_a
                (pos 1_700_000_000_000_000_000)
                (pos 28800)
                chosen_date
              ≡ true))
pick_date_lem_example =
    pick_date_lem east options timetable trip_a (pos 1_700_000_000_000_000_000) (pos 28800)
      candidates_of_day (λ e. cc)

match_poll_balances_example :
    let (out, c) = match_poll east options (some timetable) updates in
    (told c + cancellations east options (some timetable) updates ≡ length updates)
    × (c.observations ≡ length out)
    × (c.observations + c.duplicates ≡ offered c)
    × (c.by_sequence ≤ c.full_match)
    × (c.ambiguous_stop ≤ c.trip_only)
match_poll_balances_example = match_poll_balances east options (some timetable) updates

match_poll-last_word_example :
    ((i : ℕ) (o : Observation)
      → get_elem? (match_poll east options (some timetable) updates).0 i ≡ some o
      → last_word (key o) (said east options (some timetable) updates) ≡ some o)
    × ((k : Key) (o : Observation)
        → last_word k (said east options (some timetable) updates) ≡ some o
        → (i : ℕ) × (get_elem? (match_poll east options (some timetable) updates).0 i ≡ some o))
    × ((i j : ℕ) (o p : Observation)
        → get_elem? (match_poll east options (some timetable) updates).0 i ≡ some o
        → get_elem? (match_poll east options (some timetable) updates).0 j ≡ some p
        → key o ≡ key p
        → i ≡ j)
match_poll-last_word_example = match_poll-last_word east options (some timetable) updates
