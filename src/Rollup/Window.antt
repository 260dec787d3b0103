-- ===== src/Rollup/Window.antt =====
-- internal/rollup/rollup.go: the window of a rollup, the final word on each visit, and the watermark. The
-- aggregates that are computed from the finals are left out.
pub mod Words
pub mod Finals
pub mod Marks
use headway.Base.{
  ℕ, ℤ, pos, ◌+ℤ◌, ◌-ℤ◌, scale, div_ℤ, ltb_ℤ, leb_ℤ, eqb_ℤ, Bool, true, false, ◌&&◌, List, [], ◌∷◌,
  ◌++◌, Option, none, some, ◌⊎◌, inl, inr, if◌then◌else◌, select, only_if,
}
use headway.Base.Eq.{Eq}
use headway.Base.Dict.{Dict, get, put, select_values}
use headway.ServiceTime.{Date, Time, Duration, Zone, hour, candidate_service_dates}
use headway.Ingest.{Key, key, key_eq}
use headway.Rollup.Partitions.{Row, Tables, bucket_ts}

-- date_trunc('hour', t, 'UTC') and t.UTC().Truncate(time.Hour)
unfoldable pub hour_of : Time → Time
hour_of t = scale (div_ℤ t hour) hour

-- time.Date(2000, 1, 1, 0, 0, 0, 0, time.UTC)
abbrev pub sentinel : Time
sentinel = pos 946_684_800_000_000_000

-- The rows of all partitions.
unfoldable pub rows_of : Dict Date (List Row) → List Row
rows_of [] = []
rows_of ((d, rows) ∷ m) = rows ++ rows_of m

abbrev pub observations : Tables → List Row
observations db = db.default_rows ++ rows_of db.daily

-- min(coalesce(scheduled_at, feed_ts))
abbrev pub earlier : Row → Option Time → Option Time
earlier r none = some (bucket_ts r)
earlier r (some t) = some (if ltb_ℤ (bucket_ts r) t then bucket_ts r else t)

unfoldable pub first_seen : List Row → Option Time
first_seen [] = none
first_seen (r ∷ rows) = earlier r (first_seen rows)

abbrev pub truncated : Option Time → Option Time
truncated none = none
truncated (some t) = some (hour_of t)

-- Where the window begins: at the watermark, or, on the first run, at the first hour observed.
unfoldable pub window_start : Tables → Option Time
unfolding first_seen
window_start db =
    if eqb_ℤ db.watermark sentinel
    then truncated (first_seen (observations db))
    else some db.watermark

unfoldable pub window_end : Time → Duration → Time
unfolding hour_of
window_end now settle = hour_of (now -ℤ settle)

-- The inner WHERE: which rows can belong to a visit bucketed in [from, to).
abbrev pub scanned_at : Option Time → Time → Time → Time → Bool
scanned_at none feed_ts from to = leb_ℤ from feed_ts
scanned_at (some s) feed_ts from to = leb_ℤ from s && ltb_ℤ s to

unfoldable pub scanned : Date → Date → Time → Time → Row → Bool
scanned lo hi from to r =
    leb_ℤ lo r.service_date
    && leb_ℤ r.service_date hi
    && scanned_at r.scheduled_at r.feed_ts from to

-- SELECT DISTINCT ON (visit) … ORDER BY visit, feed_ts DESC: the row of each visit with the highest
-- feed_ts. The primary key leaves no two rows of a visit with one feed_ts.
abbrev pub later : Row → Option Row → Row
later r none = r
later r (some f) = if ltb_ℤ f.feed_ts r.feed_ts then r else f

unfoldable pub last_words : List Row → Dict Key Row
last_words [] = []
last_words (r ∷ rows) = put (key r) (later r (get (key r) (last_words rows))) (last_words rows)

abbrev pub in_window : Time → Time → Row → Bool
in_window from to r = leb_ℤ from (bucket_ts r) && ltb_ℤ (bucket_ts r) to

-- The temporary table `final`.
unfoldable pub finals : Date → Date → Time → Time → List Row → Dict Key Row
unfolding scanned last_words
finals lo hi from to rows =
    select_values (in_window from to) (last_words (select (scanned lo hi from to) rows))

-- Result, less the numbers of rows.
pub record Result : Type 0 where
  pub from : Time
  pub to : Time
  pub final : Dict Key Row

-- servicetime.CandidateServiceDates(t, 0)[0]
abbrev pub first_date : List Date → Date
first_date [] = pos 0
first_date (d ∷ ds) = d

module _ (loc : Zone) where
  unfoldable pub owner_date : Time → Date
  owner_date t = first_date (candidate_service_dates loc t (pos 0))

  -- What the window [from, to) does, when it is not empty.
  abbrev pub roll_window : Time → Time → Tables → Tables × Result
  roll_window from to db =
      if ltb_ℤ from to
      then (
        record db { watermark = to },
        record {
          from = from;
          to = to;
          final =
              finals (owner_date from -ℤ pos 2) (owner_date to +ℤ pos 1) from to (observations db);
        },
      )
      else (db, record { from = from; to = from; final = [] })

  abbrev pub roll_from : Option Time → Time → Tables → Tables × Result
  roll_from none to db = (db, record { from = db.watermark; to = db.watermark; final = [] })
  roll_from (some from) to db = roll_window from to db

  -- `commits` stands for whether the transaction does; if not, it changes nothing.
  unfoldable pub rollup : Time → Duration → Bool → Tables → Tables × Option Result
  unfolding window_start window_end owner_date
  rollup now settle commits db =
      let (rolled, res) = roll_from (window_start db) (window_end now settle) db in
      if commits then (rolled, some res) else (db, none)
