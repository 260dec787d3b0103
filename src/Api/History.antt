-- ===== src/Api/History.antt =====
-- internal/api/handlers_history.go: the percentile of several rollup rows; Groups has the buckets.
pub mod Weights
pub mod Groups
use headway.Base.{
  ℕ, zero, suc, ◌+◌, ◌*◌, ℤ, leb_ℤ, List, [], ◌∷◌, Option, none, some, if◌then◌else◌, leb,
}
use headway.ServiceTime.{Time}

-- store.HourRow, without the mean, which is a float32.
pub record HourRow : Type 0 where
  pub bucket_start : Time
  pub n_obs : ℕ
  pub n_early : ℕ
  pub n_on_time : ℕ
  pub n_late : ℕ
  pub n_very_late : ℕ
  pub n_skipped : ℕ
  pub n_cancelled : ℕ
  pub p50 : Option ℤ
  pub p90 : Option ℤ

-- The visits that have a delay.
abbrev pub weight : HourRow → ℕ
weight r = r.n_early + r.n_on_time + r.n_late + r.n_very_late

abbrev pub keep : Option ℤ → ℕ → List (ℤ × ℕ) → List (ℤ × ℕ)
keep none w vals = vals
keep (some v) zero vals = vals
keep (some v) (suc w) vals = (v, suc w) ∷ vals

unfoldable pub values : (HourRow → Option ℤ) → List HourRow → List (ℤ × ℕ)
values pick [] = []
values pick (r ∷ rows) = keep (pick r) (weight r) (values pick rows)

unfoldable pub total_weight : List (ℤ × ℕ) → ℕ
total_weight [] = 0
total_weight ((v, w) ∷ vals) = w + total_weight vals

-- slices.SortFunc by value.
unfoldable pub insert_value : ℤ × ℕ → List (ℤ × ℕ) → List (ℤ × ℕ)
insert_value x [] = x ∷ []
insert_value x (y ∷ ys) =
    let rest = insert_value x ys in if leb_ℤ x.0 y.0 then x ∷ y ∷ ys else y ∷ rest

unfoldable pub sort_values : List (ℤ × ℕ) → List (ℤ × ℕ)
unfolding insert_value
sort_values [] = []
sort_values (x ∷ xs) = insert_value x (sort_values xs)

-- The loop that adds the weights up to the half of the total.
unfoldable pub at_half : ℕ → ℕ → List (ℤ × ℕ) → Option ℤ
at_half total acc [] = none
at_half total acc ((v, w) ∷ vals) =
    let rest = at_half total (acc + w) vals in if leb total (2 * (acc + w)) then some v else rest

abbrev pub median_of : List (ℤ × ℕ) → Option ℤ
median_of [] = none
median_of (x ∷ xs) = at_half (total_weight (x ∷ xs)) 0 (sort_values (x ∷ xs))

unfoldable pub weighted_median : (HourRow → Option ℤ) → List HourRow → Option ℤ
unfolding values total_weight sort_values at_half
weighted_median pick rows = median_of (values pick rows)
