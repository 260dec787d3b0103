-- ===== src/Match/Dates.antt =====
-- internal/match/matcher.go: the service date of an update.
pub mod Pick
pub mod Span
use headway.Base.{
  ℕ, ℤ, pos, ◌+ℤ◌, ◌-ℤ◌, ltb_ℤ, leb_ℤ, eqb_ℤ, String, str_eq, Bool, true, false, ◌&&◌, not, List,
  [], ◌∷◌, Option, none, some, if◌then◌else◌, select,
}
use headway.ServiceTime.{Time, Duration, Date, Zone, at_service_offset, candidate_service_dates}
use headway.Civil.{codes, parse_compact}
use headway.Gtfsrt.{RawUpdate}
use headway.Match.Schedule.{StopTime, Trip, Schedule, runs_on, no_time}
use headway.Match.Counts.{Options}

-- One time of a call, added to the first and last known times so far.
abbrev pub widen : ℤ → ℤ × ℤ → ℤ × ℤ
widen v (first, last) = if eqb_ℤ v no_time then (first, last) else (
  (if eqb_ℤ first no_time then v else if ltb_ℤ v first then v else first),
  (if ltb_ℤ last v then v else last),
)

unfoldable pub span_from : List StopTime → ℤ × ℤ → ℤ × ℤ
span_from [] acc = acc
span_from (st ∷ sts) acc = span_from sts (widen st.dep_s (widen st.arr_s acc))

-- The trip's first and last known times.
unfoldable pub span : Trip → ℤ × ℤ
unfolding span_from
span t = span_from t.stops (no_time, no_time)

abbrev pub first_where {ℓ} : {A : Type ℓ} → (A → Bool) → List A → Option A
first_where p [] = none
first_where p (x ∷ xs) = let rest = first_where p xs in if p x then some x else rest

-- cands[0], of a list that is not empty
abbrev pub newest : List Date → Date
newest [] = pos 0
newest (d ∷ ds) = d

abbrev pub running : Schedule → Trip → List Date → List Date
running s t = select (runs_on s t.service_id)

abbrev pub first_or : Option Date → List Date → List Date → Date
first_or (some d) ds cands = d
first_or none (d ∷ ds) cands = d
first_or none [] cands = newest cands

module _ (loc : Zone) (opts : Options) where
  unfoldable pub near_span : Date → Time → ℤ × ℤ → Bool
  near_span d ref (first, last) =
      if eqb_ℤ first no_time
      then true
      else not (ltb_ℤ ref (at_service_offset loc d first -ℤ opts.date_tolerance))
        && not (ltb_ℤ (at_service_offset loc d last +ℤ opts.date_tolerance) ref)

  unfoldable pub near : Date → Trip → Time → ℤ → Bool
  unfolding near_span span
  near d t ref scheduled =
      if eqb_ℤ scheduled no_time
      then near_span d ref (span t)
      else (let diff = ref -ℤ at_service_offset loc d scheduled in
          leb_ℤ (pos 0 -ℤ opts.date_tolerance) diff && leb_ℤ diff opts.date_tolerance)

  unfoldable pub pick_date : Schedule → Trip → List Date → Time → ℤ → Date
  unfolding near
  pick_date s t cands ref scheduled =
      let ds = running s t cands in first_or (first_where (λ d. near d t ref scheduled) ds) ds cands

  -- The producer's start date, or the dates that the header time could be in; `none` for a start date
  -- that cannot be read.
  unfoldable pub candidates : RawUpdate → Option (List Date)
  candidates u =
      if str_eq u.start_date ""
      then some (candidate_service_dates loc u.header_ts opts.day_overlap)
      else elim (parse_compact (codes u.start_date)) [ none ↦ none | some d ↦ some (d ∷ []) ]
