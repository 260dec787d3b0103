-- ===== src/GtfsStatic/Bundle.antt =====
-- internal/gtfsstatic: a table's records streamed into COPY (parse.go), and the files of a bundle loaded
-- one after another (load.go, insert). The CSV reader and the zip reader of Go's library are parameters:
-- `csv` gives the records of a text up to its end, with `none` for a record that is not CSV.
pub mod Records
pub mod Accepted
use headway.Base.{
  ℕ, zero, suc, ◌+◌, ℤ, String, str_eq, Bool, true, false, not, ◌&&◌, ◌||◌, List, [], ◌∷◌, ◌++◌,
  Option, none, some, ◌⊎◌, inl, inr, if◌then◌else◌, length, ◌==◌, map,
}
use headway.Base.Eq.{Eq, string_eq}
use headway.Base.Dict.{Dict, get, put, has}
use headway.GtfsStatic.Row.{RowError, Parsed, ok, wrong, Row}
use headway.GtfsStatic.Tables.{
  Value, number, File, stop_times, trips, calendar, calendar_dates, file_name, required, tables,
  convert,
}

pub data BundleError : Type 0 where
  no_file : File → BundleError
  no_header : File → BundleError
  bad_record : File → ℕ → Option RowError → BundleError
  copy_failed : File → BundleError
  no_calendar : BundleError
  empty_timetable : ℕ → ℕ → BundleError

-- A UTF-8 byte order mark goes.
abbrev pub strip_bom : List ℕ → List ℕ
strip_bom (a ∷ b ∷ c ∷ s) = if a == 0xEF && b == 0xBB && c == 0xBF then s else a ∷ b ∷ c ∷ s
strip_bom s = s

-- for i, h := range header { idx[h] = i }
unfoldable pub index_from : ℕ → List String → Dict String ℕ → Dict String ℕ
index_from i [] idx = idx
index_from i (h ∷ header) idx = index_from (suc i) header (put h i idx)

module _ (F : Type 0) (parse_float : String → Option F) (max_s : ℤ) (version : ℤ) where
  abbrev pub Values : Type 0
  Values = List (List (Value F))

  abbrev pub prepend : List (Value F) → BundleError ⊎ Values → BundleError ⊎ Values
  prepend vals (inl e) = inl e
  prepend vals (inr rows) = inr ((number version ∷ vals) ∷ rows)

  abbrev pub next_row :
      File → ℕ → Parsed (List (Value F)) → BundleError ⊎ Values → BundleError ⊎ Values
  next_row t line (wrong e) rest = inl (bad_record t (suc line) (some e))
  next_row t line (ok vals) rest = prepend vals rest

  -- What CopyFrom takes from Next, from a line on: the rows, or the error that Err tells.
  unfoldable pub read_rows :
      File → Dict String ℕ → ℕ → List (Option (List String)) → BundleError ⊎ Values
  read_rows t idx line [] = inr []
  read_rows t idx line (none ∷ recs) = inl (bad_record t (suc line) none)
  read_rows t idx line (some rec ∷ recs) =
      next_row t line (convert F parse_float max_s t (record { rec = rec; idx = idx }))
        (read_rows t idx (suc line) recs)

  -- The header, and then the records after line 1.
  abbrev pub read_file : File → List (Option (List String)) → BundleError ⊎ Values
  read_file t [] = inl (no_header t)
  read_file t (none ∷ recs) = inl (no_header t)
  read_file t (some header ∷ recs) = read_rows t (index_from 0 header []) 1 recs

  -- `csv` is the reader, and `copies` stands for whether the database takes a table's rows.
  module _ (csv : List ℕ → List (Option (List String))) (copies : File → Bool) where
    abbrev pub copied : File → BundleError ⊎ Values → BundleError ⊎ Values
    copied t (inl e) = inl e
    copied t (inr rows) = if copies t then inr rows else inl (copy_failed t)

    abbrev pub and_then :
        File
        → BundleError ⊎ Values
        → BundleError ⊎ List (File × Values)
        → BundleError ⊎ List (File × Values)
    and_then t (inl e) rest = inl e
    and_then t (inr rows) (inl e) = inl e
    and_then t (inr rows) (inr loaded) = inr ((t, rows) ∷ loaded)

    -- One table, by its entry in the zip, and then the rest.
    abbrev pub load_table :
        File
        → Option (List ℕ)
        → BundleError ⊎ List (File × Values)
        → BundleError ⊎ List (File × Values)
    load_table t none rest = if required t then inl (no_file t) else rest
    load_table t (some body) rest = and_then t (copied t (read_file t (csv (strip_bom body)))) rest

    -- The loop over the tables.
    unfoldable pub load_tables :
        Dict String (List ℕ) → List File → BundleError ⊎ List (File × Values)
    unfolding read_rows index_from
    load_tables files [] = inr []
    load_tables files (t ∷ ts) = load_table t (get (file_name t) files) (load_tables files ts)

    -- counts[t.name], which is 0 for a table that was not loaded.
    unfoldable pub count_of : String → List (File × Values) → ℕ
    count_of name [] = 0
    count_of name ((t, rows) ∷ loaded) =
        if str_eq (file_name t) name then length rows else count_of name loaded

    abbrev pub checked :
        Dict String (List ℕ) → List (File × Values) → BundleError ⊎ List (File × Values)
    checked files loaded =
        if not (has (file_name calendar) files) && not (has (file_name calendar_dates) files)
        then inl no_calendar
        else if (count_of (file_name trips) loaded == 0)
            || (count_of (file_name stop_times) loaded == 0)
        then inl (
            empty_timetable (count_of (file_name trips) loaded)
              (count_of (file_name stop_times) loaded))
        else inr loaded

    abbrev pub checked_all :
        Dict String (List ℕ)
        → BundleError ⊎ List (File × Values)
        → BundleError ⊎ List (File × Values)
    checked_all files (inl e) = inl e
    checked_all files (inr loaded) = checked files loaded

    -- insert, from the files of the zip to the commit.
    unfoldable pub load_bundle : Dict String (List ℕ) → BundleError ⊎ List (File × Values)
    unfolding load_tables count_of
    load_bundle files = checked_all files (load_tables files tables)
