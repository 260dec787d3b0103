-- ===== src/Rollup/Partitions.antt =====
-- internal/rollup/job.go: EnsurePartitions and DropPartitionsBefore over the tables that their statements
-- change. A daily partition is known by its date, which its name spells. A transaction changes all that
-- it says or nothing, by what the database promises.
pub mod Rows
pub mod Placement
pub mod Dropping
pub mod Retention
use headway.Base.{
  ℕ, zero, suc, ◌+◌, ℤ, pos, pos_part, ◌+ℤ◌, ◌-ℤ◌, ltb_ℤ, leb_ℤ, eqb_ℤ, Bool, true, false, not,
  ◌||◌, List, [], ◌∷◌, ◌++◌, Option, none, some, if◌then◌else◌, select,
}
use headway.Base.Eq.{Eq, int_eq}
use headway.Base.Dict.{Dict, get, put, remove}
use headway.ServiceTime.{Date, Time}
use headway.Ingest.{Observation}

-- A row of observations is an observation as the writer stores it.
abbrev pub Row : Type 0
Row = Observation

-- coalesce(scheduled_at, feed_ts)
abbrev pub coalesce : Option Time → Time → Time
coalesce none t = t
coalesce (some s) t = s

abbrev pub bucket_ts : Row → Time
bucket_ts r = coalesce r.scheduled_at r.feed_ts

-- The daily partitions of observations, observations_default, and the watermark of rollup_state.
pub record Tables : Type 0 where
  pub daily : Dict Date (List Row)
  pub default_rows : List Row
  pub watermark : Time

pub data PartitionError : Type 0 where
  list_failed : PartitionError
  create_failed : Date → PartitionError
  drop_failed : Date → PartitionError

-- What the database answers: whether the list of partitions is read, whether the transaction that
-- creates a date's partition commits, and whether in the one that drops it the test is read and the
-- rest commits.
pub record Answers : Type 0 where
  pub lists : Bool
  pub creates : Date → Bool
  pub reads : Date → Bool
  pub drops : Date → Bool

-- slices.SortFunc(out, time.Time.Compare)
unfoldable pub insert_date : Date → List Date → List Date
insert_date d [] = d ∷ []
insert_date d (e ∷ es) = let rest = insert_date d es in if leb_ℤ d e then d ∷ e ∷ es else e ∷ rest

unfoldable pub partitions_of : Dict Date (List Row) → List Date
unfolding insert_date
partitions_of [] = []
partitions_of ((d, rows) ∷ m) = insert_date d (partitions_of m)

abbrev pub partitions : Tables → List Date
partitions db = partitions_of db.daily

-- slices.ContainsFunc(have, d.Equal)
abbrev pub has_date : Date → List Date → Bool
has_date d [] = false
has_date d (e ∷ es) = eqb_ℤ d e || has_date d es

-- SELECT EXISTS
abbrev pub any_row : (Row → Bool) → List Row → Bool
any_row p [] = false
any_row p (r ∷ rows) = p r || any_row p rows

-- service_date = d
abbrev pub of_date : Date → Row → Bool
of_date d r = eqb_ℤ r.service_date d

-- The transaction of EnsurePartitions: rows of the date that lie in the default partition are moved.
unfoldable pub create_partition : Date → Tables → Tables
create_partition d db =
    if any_row (of_date d) db.default_rows
    then record db {
      daily = put d (select (of_date d) db.default_rows) db.daily;
      default_rows = select (λ r. not (of_date d r)) db.default_rows;
    }
    else record db { daily = put d [] db.daily }

-- bucketed at or past the watermark
abbrev pub unrolled : Time → Row → Bool
unrolled watermark r = leb_ℤ watermark (bucket_ts r)

abbrev pub pending_rows : Time → Option (List Row) → Bool
pending_rows watermark none = false
pending_rows watermark (some rows) = any_row (unrolled watermark) rows

abbrev pub pending : Date → Tables → Bool
pending d db = pending_rows db.watermark (get d db.daily)

abbrev pub drop_partition : Date → Tables → Tables
drop_partition d db = record db { daily = remove d db.daily }

module _ (a : Answers) where
  -- The loop of EnsurePartitions over the days from `d` that are left.
  unfoldable pub ensure_days :
      List Date → ℕ → Date → Tables → List Date → Tables × List Date × Option PartitionError
  unfolding create_partition
  ensure_days have zero d db created = (db, created, none)
  ensure_days have (suc n) d db created =
      let skip = ensure_days have n (d +ℤ pos 1) db created in
      let next = ensure_days have n (d +ℤ pos 1) (create_partition d db) (created ++ d ∷ []) in
      if has_date d have
      then skip
      else if a.creates d
      then next
      else (db, created, some (create_failed d))

  -- The days from `from` to `to`, both included.
  abbrev pub days : Date → Date → ℕ
  days from to = pos_part (to -ℤ from +ℤ pos 1)

  unfoldable pub ensure_partitions :
      Date → Date → Tables → Tables × List Date × Option PartitionError
  unfolding ensure_days partitions_of
  ensure_partitions from to db =
      if a.lists
      then ensure_days (partitions db) (days from to) from db []
      else (db, [], some list_failed)

  -- The loop of DropPartitionsBefore.
  unfoldable pub drop_days :
      Date → List Date → Tables → List Date → Tables × List Date × Option PartitionError
  drop_days cutoff [] db dropped = (db, dropped, none)
  drop_days cutoff (d ∷ ds) db dropped =
      let skip = drop_days cutoff ds db dropped in
      let next = drop_days cutoff ds (drop_partition d db) (dropped ++ d ∷ []) in
      let failed : Tables × List Date × Option PartitionError =
        (db, dropped, some (drop_failed d)) in
      if not (ltb_ℤ d cutoff)
      then (db, dropped, none)
      else if not (a.reads d)
      then failed
      else if pending d db
      then skip
      else if a.drops d
      then next
      else failed

  unfoldable pub drop_partitions_before : Date → Tables → Tables × List Date × Option PartitionError
  unfolding drop_days partitions_of
  drop_partitions_before cutoff db =
      if a.lists then drop_days cutoff (partitions db) db [] else (db, [], some list_failed)
