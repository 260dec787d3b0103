-- ===== src/Examples/History.antt =====
-- Tests of the weighted median, and of the counts of two hours.
use headway.Base.{
  ℕ, ◌*◌, ◌≤◌, ◌<◌, ℤ, pos, false, ltb_ℤ, leb_ℤ, List, [], ◌∷◌, none, some, ◌⊎◌, ◌≡◌,
}
use headway.Api.History.{HourRow, values, total_weight, weighted_median}
use headway.Api.History.Groups.{group_rows, combine}
use headway.Api.History.Groups.Sums.{sum_of, late, totals_lem}
use headway.Examples.Data.{east}
use headway.Api.History.Weights.{weight_of, weighted_median_lem}

abbrev row_with : ℕ → ℤ → HourRow
row_with visits p50 = record {
  bucket_start = pos 0;
  n_obs = visits;
  n_early = 0;
  n_on_time = visits;
  n_late = 0;
  n_very_late = 0;
  n_skipped = 0;
  n_cancelled = 0;
  p50 = some p50;
  p90 = none;
}

abbrev rows : List HourRow
rows = row_with 3 (pos 60) ∷ row_with 5 (pos 20) ∷ row_with 1 (pos 300) ∷ []

weighted_median_lem_example :
    ((values (λ r. r.p50) rows ≡ []) × (weighted_median (λ r. r.p50) rows ≡ none))
    ⊎ ((m : ℤ) × (weighted_median (λ r. r.p50) rows ≡ some m)
        × (2 * weight_of (λ v. ltb_ℤ v m) (values (λ r. r.p50) rows)
            < total_weight (values (λ r. r.p50) rows))
        × (total_weight (values (λ r. r.p50) rows)
            ≤ 2 * weight_of (λ v. leb_ℤ v m) (values (λ r. r.p50) rows)))
weighted_median_lem_example = weighted_median_lem (λ r. r.p50) rows

abbrev later_row : HourRow
later_row = record (row_with 2 (pos 400)) {
  bucket_start = pos 3_600_000_000_000;
  n_late = 2;
  n_on_time = 0;
}

abbrev two_hours : List HourRow
two_hours = row_with 5 (pos 20) ∷ later_row ∷ []

totals_lem_example :
    sum_of (λ c. c.n_late) (group_rows east (row_with 3 (pos 60) ∷ two_hours) false)
    ≡ (combine (row_with 3 (pos 60) ∷ two_hours)).n_late
totals_lem_example = totals_lem late east false (row_with 3 (pos 60)) two_hours
