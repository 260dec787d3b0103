-- ===== src/Match/Counts.antt =====
-- internal/match/matcher.go: what happened to one poll's updates, and the matcher's settings.
use headway.Base.{ℕ, ◌+◌, ◌-◌, ℤ, List, [], ◌∷◌, String}
use headway.ServiceTime.{Duration}

pub record Counts : Type 0 where
  pub updates : ℕ
  pub observations : ℕ
  pub full_match : ℕ
  pub by_sequence : ℕ
  pub trip_only : ℕ
  pub unknown_trip : ℕ
  pub added : ℕ
  pub no_schedule : ℕ
  pub ambiguous_stop : ℕ
  pub cancelled_stops : ℕ
  pub trip_level_skipped : ℕ
  pub no_stop_id : ℕ
  pub bad_start_date : ℕ
  pub delay_disagreements : ℕ
  pub unknown_stop : ℕ
  pub duplicates : ℕ

abbrev pub zero_counts : Counts
zero_counts = record {
  updates = 0;
  observations = 0;
  full_match = 0;
  by_sequence = 0;
  trip_only = 0;
  unknown_trip = 0;
  added = 0;
  no_schedule = 0;
  ambiguous_stop = 0;
  cancelled_stops = 0;
  trip_level_skipped = 0;
  no_stop_id = 0;
  bad_start_date = 0;
  delay_disagreements = 0;
  unknown_stop = 0;
  duplicates = 0;
}

-- The match rate is a quotient of these two; 0 when the second is.
unfoldable pub rate_matched : Counts → ℕ
rate_matched c = c.full_match + c.trip_only

unfoldable pub rate_total : Counts → ℕ
rate_total c = c.full_match + c.trip_only + c.unknown_trip + c.no_schedule

-- The metric labels with their counts.
pub record Labels : Type 0 where
  pub matched : List (String × ℕ)
  pub unmatched : List (String × ℕ)
  pub dropped : List (String × ℕ)

unfoldable pub labels : Counts → Labels
labels c = record {
  matched = ("1", c.by_sequence) ∷ ("2", c.full_match - c.by_sequence) ∷ ("3", c.trip_only) ∷ [];
  unmatched =
      ("unknown_trip", c.unknown_trip) ∷ ("added", c.added) ∷ ("no_schedule", c.no_schedule) ∷ [];
  dropped =
      ("no_stop_id", c.no_stop_id)
      ∷ ("bad_start_date", c.bad_start_date)
      ∷ ("trip_level_skipped", c.trip_level_skipped)
      ∷ [];
}

pub record Options : Type 0 where
  pub day_overlap : Duration
  pub date_tolerance : Duration
  pub reconcile_s : ℤ
