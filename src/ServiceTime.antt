-- ===== src/ServiceTime.antt =====
-- internal/servicetime/servicetime.go: service days in the zone of the network, in nanoseconds.
-- Instants are nanoseconds since the Unix epoch, dates are days since the epoch.
pub mod Candidates
pub mod Clock
use headway.Base.{
  ℤ, pos, ◌+ℤ◌, ◌-ℤ◌, scale, div_ℤ, ltb_ℤ, ℕ, zero, suc, ◌*◌, ◌≤◌, List, [], ◌∷◌, Option, none,
  some, if◌then◌else◌, Bool,
}

abbrev pub Time : Type 0
Time = ℤ

abbrev pub Duration : Type 0
Duration = ℤ

abbrev pub Date : Type 0
Date = ℤ

abbrev pub second : ℕ
second = 1_000_000_000

abbrev pub hour : ℕ
hour = 3_600_000_000_000

abbrev pub day : ℕ
day = 86_400_000_000_000

-- The zone database's entry for Australia/Sydney, which the program loads and does not define:
-- seconds east of UTC at each instant. No zone of the database is more than 14 hours off UTC.
pub record Zone : Type 0 where
  pub offset : Time → ℕ
  pub offset_le : (t : Time) → offset t ≤ 50_400

module _ (loc : Zone) where
  unfoldable pub shift : Time → Duration
  shift t = pos (loc.offset t * second)

  -- t.In(Loc).Date()
  unfoldable pub local_date : Time → Date
  unfolding shift
  local_date t = div_ℤ (t +ℤ shift t) day

  -- time.Date(y, m, d, 0, 0, 0, ns, Loc): the offset is first looked up as if the wall clock read
  -- UTC, and then at the instant that this gives.
  unfoldable pub wall_clock : Date → Duration → Time
  unfolding shift
  wall_clock d ns =
      let wall = scale d day +ℤ ns in let utc = wall -ℤ shift wall in wall -ℤ shift utc

  unfoldable pub service_day_start : Date → Time
  unfolding wall_clock
  service_day_start d = wall_clock d (pos (12 * hour)) -ℤ pos (12 * hour)

  unfoldable pub at_service_offset : Date → ℤ → Time
  unfolding service_day_start
  at_service_offset d seconds = service_day_start d +ℤ scale seconds second

  -- The loop of `CandidateServiceDates`, from date `d` downwards, on fuel.
  unfoldable pub find_owner : Time → ℕ → Date → Option Date
  find_owner t zero d = none
  find_owner t (suc fuel) d =
      let rest = find_owner t fuel (d -ℤ pos 1) in
      if ltb_ℤ t (service_day_start d) then rest else some d

  unfoldable pub candidates_of : Time → Duration → Option Date → List Date
  candidates_of t overlap none = []
  candidates_of t overlap (some owner) =
      if ltb_ℤ (t -ℤ service_day_start owner) overlap
      then owner ∷ (owner -ℤ pos 1) ∷ []
      else owner ∷ []

  -- Three rounds reach yesterday, whose service always started before `t`.
  unfoldable pub candidate_service_dates : Time → Duration → List Date
  unfolding find_owner candidates_of local_date
  candidate_service_dates t overlap =
      candidates_of t overlap (find_owner t 3 (local_date t +ℤ pos 1))
