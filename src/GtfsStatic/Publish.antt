-- ===== src/GtfsStatic/Publish.antt =====
-- internal/gtfsstatic/refresh.go: the active version of a feed handed to the matcher, and the loads and
-- publications of one refresh.
pub mod Rounds
use headway.Base.{
  ℕ, ℤ, pos, eqb_ℤ, String, str_eq, Bool, true, false, ◌||◌, not, List, [], ◌∷◌, Option, none, some,
  ◌⊎◌, inl, inr, if◌then◌else◌, ◌&&◌, ◌==◌,
}
use headway.Match.Schedule.{Schedule}
use headway.Match.Matcher.{Matcher, swap, loaded}
use headway.GtfsStatic.Memory.{Timetable, read_schedule}
use headway.GtfsStatic.Versions.{Version, Versions, LoadError, Circumstances, load}

-- The versions, and the rows of each one's timetable.
pub record Store : Type 0 where
  pub versions : Versions
  pub timetables : ℕ → Timetable

-- SELECT id FROM schedule_versions WHERE feed_id = $1 AND active
unfoldable pub active_id : String → List Version → Option ℕ
active_id feed [] = none
active_id feed (v ∷ vs) =
    if str_eq v.feed_id feed && v.is_active then some v.id else active_id feed vs

-- Whether the query for the active version and the transaction that reads it back succeed.
pub record Reads : Type 0 where
  pub finds : Bool
  pub reads : Bool

-- `Schedule`: `none` for any error.
abbrev pub schedule_of : String → (ℕ → Timetable) → Option ℕ → Option Schedule
schedule_of feed timetables none = none
schedule_of feed timetables (some id) = some (read_schedule (pos id) feed (timetables id))

unfoldable pub schedule : Reads → String → Store → Option Schedule
unfolding active_id read_schedule
schedule q feed db =
    if q.reads then schedule_of feed db.timetables (active_id feed db.versions.rows) else none

abbrev pub swapped : Option Schedule → Matcher → Matcher × Bool
swapped none m = (m, true)
swapped (some s) m = (swap s m, false)

abbrev pub published : Reads → String → Store → Option ℕ → Matcher → Matcher × Bool
published q feed db none m = (m, false)
published q feed db (some id) m =
    if eqb_ℤ (pos id) (loaded feed m) then (m, false) else swapped (schedule q feed db) m

-- publishActive: the matcher after it, and whether it failed.
unfoldable pub publish_active : Reads → String → Store → Matcher → Matcher × Bool
unfolding schedule active_id
publish_active q feed db m =
    if q.finds then published q feed db (active_id feed db.versions.rows) m else (m, true)

-- Publish, for every feed when the program starts.
unfoldable pub publish_all : List (String × Reads) → Store → Matcher → Matcher × Bool
unfolding publish_active
publish_all [] db m = (m, false)
publish_all ((feed, q) ∷ fs) db m =
    let (m', failed) = publish_active q feed db m in
    let (m'', more) = publish_all fs db m' in (m'', failed || more)

abbrev pub is_failed {ℓ} : {A : Type ℓ} → LoadError ⊎ A → Bool
is_failed (inl e) = true
is_failed (inr a) = false

-- A feed of a refresh, with its URL and what its load and publication meet. `timetable` is what insert
-- writes for the id that it takes.
pub record Due : Type 0 where
  pub feed : String
  pub schedule_url : String
  pub meets : Circumstances
  pub timetable : Timetable
  pub reading : Reads

-- The rows that insert writes, where it took the id; those of a version that is pruned are never read again.
abbrev pub written : ℕ → ℕ → Timetable → (ℕ → Timetable) → ℕ → Timetable
written old new t rows id = if not (old == new) && (id == old) then t else rows id

abbrev pub stored : Due → Store → Versions → Store
stored d db versions = record {
  versions = versions;
  timetables = written db.versions.next_id versions.next_id d.timetable db.timetables;
}

abbrev pub then_publish :
    Due → Store → Matcher → Versions × (LoadError ⊎ (ℕ × Bool)) → Store × Matcher × Bool
then_publish d db m (versions, result) =
    let (m', failed) = publish_active d.reading d.feed (stored d db versions) m in
    (stored d db versions, m', is_failed result || failed)

-- The body of Run's loop over the feeds.
unfoldable pub refresh_one : ℕ → Due → Store → Matcher → Store × Matcher × Bool
unfolding publish_active
refresh_one keep d db m = then_publish d db m (load d.meets keep d.feed db.versions)

-- The loop over the feeds, while Run is not cancelled; a feed's failure does not keep it from the others.
unfoldable pub refresh_all : ℕ → List Due → Store → Matcher → Store × Matcher × Bool
unfolding refresh_one
refresh_all keep [] db m = (db, m, false)
refresh_all keep (d ∷ ds) db m =
    let (db', m', failed) = refresh_one keep d db m in
    let skipped = refresh_all keep ds db m in
    let (db'', m'', more) = refresh_all keep ds db' m' in
    if str_eq d.schedule_url "" then skipped else (db'', m'', failed || more)
