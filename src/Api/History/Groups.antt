-- ===== src/Api/History/Groups.antt =====
-- internal/api/handlers_history.go: rows grouped by hour or by day, and a group combined into a bucket. The
-- mean and the share on time are float64 and are left out.
pub mod Runs
pub mod Sums
use headway.Base.{
  ℕ, ◌+◌, ℤ, pos, eqb_ℤ, Bool, true, false, not, ◌||◌, List, [], ◌∷◌, ◌++◌, Option, none, some,
  if◌then◌else◌,
}
use headway.ServiceTime.{Time, Zone, local_date, wall_clock}
use headway.Api.History.{HourRow, weighted_median}

module _ (loc : Zone) where
  -- time.Date(l.Year(), l.Month(), l.Day(), 0, 0, 0, 0, servicetime.Loc)
  unfoldable pub sydney_midnight : Time → Time
  sydney_midnight t = wall_clock loc (local_date loc t) (pos 0)

  unfoldable pub group_key : Bool → HourRow → Time
  unfolding sydney_midnight
  group_key by_day r = if by_day then sydney_midnight r.bucket_start else r.bucket_start

abbrev pub is_nil {ℓ} : {A : Type ℓ} → List A → Bool
is_nil [] = true
is_nil (x ∷ xs) = false

-- out[len(out)-1] = append(out[len(out)-1], r)
unfoldable pub append_last : HourRow → List (List HourRow) → List (List HourRow)
append_last r [] = []
append_last r (g ∷ []) = (g ++ r ∷ []) ∷ []
append_last r (g ∷ h ∷ out) = g ∷ append_last r (h ∷ out)

-- The loop of groupRows, over a key.
module _ (key : HourRow → Time) where
  abbrev pub place : HourRow → List (List HourRow) → Time → List (List HourRow)
  place r out last =
      append_last r (if is_nil out || not (eqb_ℤ (key r) last) then out ++ [] ∷ [] else out)

  unfoldable pub group_from : List HourRow → List (List HourRow) → Time → List (List HourRow)
  unfolding append_last
  group_from [] out last = out
  group_from (r ∷ rows) out last = group_from rows (place r out last) (key r)

unfoldable pub group_rows : Zone → List HourRow → Bool → List (List HourRow)
unfolding group_key group_from
group_rows loc rows by_day = group_from (group_key loc by_day) rows [] (pos 0)

pub record Combined : Type 0 where
  pub n_obs : ℕ
  pub n_early : ℕ
  pub n_on_time : ℕ
  pub n_late : ℕ
  pub n_very_late : ℕ
  pub n_skipped : ℕ
  pub n_cancelled : ℕ
  pub p50 : Option ℤ
  pub p90 : Option ℤ

unfoldable pub known : Combined → ℕ
known c = c.n_early + c.n_on_time + c.n_late + c.n_very_late

abbrev pub add_row : HourRow → Combined → Combined
add_row r c = record c {
  n_obs = c.n_obs + r.n_obs;
  n_early = c.n_early + r.n_early;
  n_on_time = c.n_on_time + r.n_on_time;
  n_late = c.n_late + r.n_late;
  n_very_late = c.n_very_late + r.n_very_late;
  n_skipped = c.n_skipped + r.n_skipped;
  n_cancelled = c.n_cancelled + r.n_cancelled;
}

unfoldable pub add_rows : List HourRow → Combined → Combined
add_rows [] c = c
add_rows (r ∷ rows) c = add_rows rows (add_row r c)

abbrev pub nothing : Combined
nothing = record {
  n_obs = 0;
  n_early = 0;
  n_on_time = 0;
  n_late = 0;
  n_very_late = 0;
  n_skipped = 0;
  n_cancelled = 0;
  p50 = none;
  p90 = none;
}

abbrev pub percentile : (HourRow → Option ℤ) → List HourRow → Option ℤ
percentile pick (r ∷ []) = pick r
percentile pick rows = weighted_median pick rows

unfoldable pub combine : List HourRow → Combined
unfolding add_rows
combine rows = record (add_rows rows nothing) {
  p50 = percentile (λ r. r.p50) rows;
  p90 = percentile (λ r. r.p90) rows;
}
