-- ===== src/Match/Matcher/Balance.antt =====
-- The counts of a poll balance.
use headway.Base.{
  ℕ, suc, ◌+◌, ◌≤◌, eqb_ℤ, List, [], ◌∷◌, Option, none, some, Bool, false, ◌&&◌, length,
  length-append, length-set, arith, ◌≡◌, refl, Option-cases, inl, inr,
}
use headway.ServiceTime.{Date, Zone}
use headway.Gtfsrt.{RawUpdate, trip_canceled}
use headway.Ingest.{Observation, key, key_eq}
use headway.Base.Dict.{get}
use headway.Match.Schedule.{Schedule, Trip, StopTime}
use headway.Match.Counts.{Counts, Options}
use headway.Match.Dates.{candidates, pick_date, newest}
use headway.Match.Resolve.{resolve_stop, base}
use headway.Match.Schedule.{no_time}
use headway.Match.Matcher.{
  Run, init_run, add, match_unknown, cancel_stops, match_stop, match_known, match_dated,
  match_update, match_updates, match_poll, find_trip, count_unmatched, count_unknown_stop,
  cancelled_stop, full_observation, trip_observation, tally, count, is_by_sequence,
}

-- The observations offered to `add`, by the counts.
abbrev pub offered : Counts → ℕ
offered c =
    c.no_schedule + c.added + c.unknown_trip + c.trip_only + c.full_match + c.cancelled_stops

-- The updates that the counts tell of, one way or another; a cancelled trip counts by its stops.
abbrev pub told : Counts → ℕ
told c =
    c.bad_start_date + c.trip_level_skipped + c.no_stop_id + c.no_schedule + c.added
    + c.unknown_trip + c.trip_only + c.full_match

-- What every step keeps: each observation offered stands in the output or replaced another, and the
-- special cases are no more than the cases that they are part of.
pub record IsBalanced (r : Run) : Type 0 where
  pub outputs : length r.out + r.c.duplicates ≡ offered r.c
  pub sequenced : r.c.by_sequence ≤ r.c.full_match
  pub ambiguous : r.c.ambiguous_stop ≤ r.c.trip_only

-- `add` moves the output and the duplicates, and no other count.
add_lem :
    (o : Observation) (r : Run)
    → (d : ℕ) × ((add o r).c ≡ record r.c { duplicates = d })
      × (length (add o r).out + d ≡ suc (length r.out + r.c.duplicates))
unfolding add
add_lem o r = elim (Option-cases (get (key o) r.at)) [
  | inl new ↦ rw (new, add) (r.c.duplicates, refl, omega (arith, length-append r.out (o ∷ [])))
  | inr (i, old) ↦ rw (old, add) (suc r.c.duplicates, refl, omega (arith, length-set r.out i o))
]

-- A step keeps the balance, and moves `told` by `n`.
abbrev Keeps : ℕ → Run → Run → Type 0
Keeps n r r' = IsBalanced r' × (told r'.c ≡ n + told r.c)

cancel_one :
    (o : Observation) (r : Run)
    → IsBalanced r
    → Keeps 0 r (count (λ c. record c { cancelled_stops = suc c.cancelled_stops }) (add o r))
cancel_one o r h =
    let (d, counts, lengths) = add_lem o r in
    (
      record {
        outputs = rw counts (omega (arith, h.outputs));
        sequenced = rw counts h.sequenced;
        ambiguous = rw counts h.ambiguous;
      },
      rw counts (omega arith),
    )

add_one :
    (o : Observation) (r : Run)
    → length r.out + r.c.duplicates + 1 ≡ offered r.c
    → r.c.by_sequence ≤ r.c.full_match
    → r.c.ambiguous_stop ≤ r.c.trip_only
    → IsBalanced (add o r) × (told (add o r).c ≡ told r.c)
add_one o r h b a =
    let (d, counts, lengths) = add_lem o r in
    (
      record {
        outputs = rw counts (omega (arith, h));
        sequenced = rw counts b;
        ambiguous = rw counts a;
      },
      rw counts (omega arith),
    )

abbrev pub cancels : Option (List Date) → Option (Schedule × Trip) → RawUpdate → Bool
cancels none found u = false
cancels (some cands) none u = false
cancels (some cands) (some (s, t)) u = u.trip_level && eqb_ℤ u.trip_rel trip_canceled

module _ (loc : Zone) (opts : Options) where
  cancel_stops-IsBalanced :
      (t : Trip) (d : Date) (u : RawUpdate) (sts : List StopTime) (r : Run)
      → IsBalanced r
      → Keeps 0 r (cancel_stops loc t d u sts r)
  unfolding cancel_stops
  cancel_stops-IsBalanced t d u [] r h = (h, omega arith)
  cancel_stops-IsBalanced t d u (st ∷ sts) r h =
      let one = cancel_one (cancelled_stop loc t d u st) r h in
      let rest = cancel_stops-IsBalanced t d u sts _ one.0 in (rest.0, omega (arith, one.1, rest.1))

  match_unknown-IsBalanced :
      (sched : Option Schedule) (cands : List Date) (u : RawUpdate) (r : Run)
      → IsBalanced r
      → Keeps 1 r (match_unknown sched cands u r)
  unfolding match_unknown
  match_unknown-IsBalanced none cands u r h =
      ground (arith, add_one (base u (newest cands)) (count (count_unmatched none u) r))
  match_unknown-IsBalanced (some s) cands u r h =
      ground (arith, add_one (base u (newest cands)) (count (count_unmatched (some s) u) r))

  match_stop-IsBalanced :
      (s : Schedule) (t : Trip) (cands : List Date) (u : RawUpdate) (o : Option StopTime)
      (ambiguous : Bool) (r : Run)
      → IsBalanced r
      → Keeps 1 r (match_stop loc opts s t cands u (o, ambiguous) r)
  unfolding match_stop
  match_stop-IsBalanced s t cands u none ambiguous r h = ground (
    arith,
    add_one (trip_observation loc opts s t cands u) (
        count
          (λ c. record c {
            trip_only = suc c.trip_only;
            ambiguous_stop = tally ambiguous c.ambiguous_stop;
          })
          r),
  )
  match_stop-IsBalanced s t cands u (some st) ambiguous r h =
      let (o, disagree) = full_observation loc opts s t cands u st in
      ground (
        arith,
        add_one o (
            count
              (λ c. record c {
                full_match = suc c.full_match;
                by_sequence = tally (is_by_sequence u st) c.by_sequence;
                delay_disagreements = tally disagree c.delay_disagreements;
              })
              r),
      )

  -- The update cancels a whole trip of the timetable, and counts by the trip's stops.
  abbrev pub is_cancellation : Option Schedule → RawUpdate → Bool
  is_cancellation sched u = cancels (candidates loc opts u) (find_trip sched u.trip_id) u

  abbrev pub cancellations : Option Schedule → List RawUpdate → ℕ
  cancellations sched [] = 0
  cancellations sched (u ∷ us) = tally (is_cancellation sched u) (cancellations sched us)

  match_known-IsBalanced :
      (s : Schedule) (t : Trip) (cands : List Date) (u : RawUpdate) (r : Run)
      → IsBalanced r
      → IsBalanced (match_known loc opts s t cands u r)
        × (tally
              (u.trip_level && eqb_ℤ u.trip_rel trip_canceled)
              (told (match_known loc opts s t cands u r).c)
            ≡ suc (told r.c))
  unfolding match_known
  match_known-IsBalanced s t cands u r h =
      let d = pick_date loc opts s t cands u.header_ts no_time in
      let (st, ambiguous) = resolve_stop t u in
      ground (
        arith,
        cancel_stops-IsBalanced t d u t.stops r h,
        match_stop-IsBalanced s t cands u st ambiguous r h,
      )

  match_dated-IsBalanced :
      (sched : Option Schedule) (cs : Option (List Date)) (u : RawUpdate) (r : Run)
      → IsBalanced r
      → IsBalanced (match_dated loc opts sched cs u r)
        × (tally
              (cancels cs (find_trip sched u.trip_id) u)
              (told (match_dated loc opts sched cs u r).c)
            ≡ suc (told r.c))
  unfolding match_dated
  match_dated-IsBalanced sched none u r h = ground arith
  match_dated-IsBalanced sched (some cands) u r h =
      elim (Option-cases (find_trip sched u.trip_id)) [
        | inl missing ↦
            let unknown = match_unknown-IsBalanced sched cands u r h in
            rw (missing, match_dated) (unknown.0, omega (arith, unknown.1))
        | inr ((s, t), there) ↦ rw (there, match_dated) (match_known-IsBalanced s t cands u r h)
      ]

  match_update-IsBalanced :
      (sched : Option Schedule) (u : RawUpdate) (r : Run)
      → IsBalanced r
      → IsBalanced (match_update loc opts sched u r)
        × (tally (is_cancellation sched u) (told (match_update loc opts sched u r).c)
            ≡ suc (told r.c))
  unfolding match_update
  match_update-IsBalanced sched u r h =
      match_dated-IsBalanced sched (candidates loc opts u) u (count_unknown_stop sched u r)
        (unfold count_unknown_stop in ground arith)

  match_updates-IsBalanced :
      (sched : Option Schedule) (us : List RawUpdate) (r : Run)
      → IsBalanced r
      → IsBalanced (match_updates loc opts sched us r)
        × (told (match_updates loc opts sched us r).c + cancellations sched us
            ≡ length us + told r.c)
  unfolding match_updates
  match_updates-IsBalanced sched [] r h = (h, omega arith)
  match_updates-IsBalanced sched (u ∷ us) r h =
      let one = match_update-IsBalanced sched u r h in
      let rest = match_updates-IsBalanced sched us (match_update loc opts sched u r) one.0 in
      (rest.0, ground arith)

  -- Of a poll's updates each is told of by one count, or cancels a trip of the timetable. Every
  -- observation offered is returned or replaced an earlier one of its key. Resolutions by sequence are
  -- among the full matches, and ambiguous stops among the trips matched without a stop.
  pub match_poll_balances :
      (sched : Option Schedule) (us : List RawUpdate)
      → let (out, c) = match_poll loc opts sched us in
        (told c + cancellations sched us ≡ length us)
        × (c.observations ≡ length out)
        × (c.observations + c.duplicates ≡ offered c)
        × (c.by_sequence ≤ c.full_match)
        × (c.ambiguous_stop ≤ c.trip_only)
  unfolding match_poll
  match_poll_balances sched us =
      let r = count (λ c. record c { updates = length us }) init_run in
      let (balanced, all_told) = match_updates-IsBalanced sched us r (omega arith) in
      (omega arith, refl, balanced.outputs, balanced.sequenced, balanced.ambiguous)
