-- ===== src/Examples/Maintenance.antt =====
-- Tests of the maintenance job: two days of trains, of which the older is rolled up and past retention.
use headway.Base.{
  ◌*◌, ℤ, pos, ◌+ℤ◌, ◌-ℤ◌, ◌≤ℤ◌, ◌<ℤ◌, eqb_ℤ, eqb_ℤ_iff, Bool, true, false, [], ◌∷◌, none, some,
  inl, inr, ◌≡◌, refl, int_laws, Bool-cases, subst, sym,
}
use headway.Base.Eq.{int_eq}
use headway.Base.Dict.{get, has}
use headway.ServiceTime.{Date, Time, hour}
use headway.Ingest.{key, key_eq}
use headway.Rollup.Partitions.{
  Row, Tables, Answers, pending, ensure_partitions, drop_partitions_before,
}
use headway.Rollup.Partitions.Rows.{total}
use headway.Rollup.Partitions.Placement.{Placed, IsPlaced, ensure_partitions_lem}
use headway.Rollup.Partitions.Dropping.{MustStay}
use headway.Rollup.Partitions.Retention.{drop_partitions_before_lem}
use headway.Rollup.Window.{Result, in_window, finals, rollup}
use headway.Rollup.Window.Words.{In, IsLast}
use headway.Rollup.Window.Finals.{finals_lem}
use headway.Rollup.Window.Marks.{Moved, Begins, rollup_lem}
use headway.Rollup.Tick.{Options, TickOutcome, tick}
use headway.Examples.Data.{east, observation_at}

abbrev early_word : Row
early_word = observation_at "x" (pos 30)

abbrev last_word : Row
last_word = record (observation_at "x" (pos 60)) { feed_ts = pos 1_700_000_030_000_000_000 }

abbrev db : Tables
db = record {
  daily = (pos 19675, early_word ∷ last_word ∷ []) ∷ [];
  default_rows = record (observation_at "y" (pos 0)) { service_date = pos 19676 } ∷ [];
  watermark = pos 1_699_999_200_000_000_000;
}

db-Placed : (d : Date) → Placed d (get d db.daily) db.default_rows
unfolding get
db-Placed d = elim (Bool-cases (eqb_ℤ (pos 19675) d)) [
  | inl same ↦
      subst (λ x. Placed x (get x db.daily) db.default_rows) ((eqb_ℤ_iff (pos 19675) d).0 same)
        ((refl, (refl, tt)), refl)
  | inr other ↦ rw other tt
]

db-IsPlaced : IsPlaced db
unfolding get
db-IsPlaced = record { keys = (refl, tt); rows_placed = db-Placed }

-- The partition of the second day cannot be created.
abbrev answers : Answers
answers = record {
  lists = true;
  creates = λ d. eqb_ℤ d (pos 19677);
  reads = λ d. true;
  drops = λ d. true;
}

ensure_partitions_lem_example :
    IsPlaced (ensure_partitions answers (pos 19675) (pos 19677) db).0
    × ((p : Row → Bool)
        → total p (ensure_partitions answers (pos 19675) (pos 19677) db).0 ≡ total p db)
    × ((ensure_partitions answers (pos 19675) (pos 19677) db).0.watermark ≡ db.watermark)
    × ((e : Date)
        → has e db.daily ≡ true
        → has e (ensure_partitions answers (pos 19675) (pos 19677) db).0.daily ≡ true)
    × ((ensure_partitions answers (pos 19675) (pos 19677) db).2 ≡ none
        → (e : Date) → pos 19675 ≤ℤ e
        → e ≤ℤ pos 19677
        → has e (ensure_partitions answers (pos 19675) (pos 19677) db).0.daily ≡ true)
ensure_partitions_lem_example = ensure_partitions_lem answers (pos 19675) (pos 19677) db db-IsPlaced

drop_partitions_before_lem_example :
    IsPlaced (drop_partitions_before answers (pos 19676) db).0
    × ((p : Row → Bool)
        → MustStay (pos 19676) db p
        → total p (drop_partitions_before answers (pos 19676) db).0 ≡ total p db)
    × ((drop_partitions_before answers (pos 19676) db).0.watermark ≡ db.watermark)
    × ((drop_partitions_before answers (pos 19676) db).0.default_rows ≡ db.default_rows)
    × ((drop_partitions_before answers (pos 19676) db).2 ≡ none
        → (e : Date) → e <ℤ pos 19676
        → has e (drop_partitions_before answers (pos 19676) db).0.daily ≡ true
        → pending e (drop_partitions_before answers (pos 19676) db).0 ≡ true)
drop_partitions_before_lem_example = drop_partitions_before_lem answers (pos 19676) db db-IsPlaced

abbrev from : Time
from = pos 1_700_000_000_000_000_000

abbrev to : Time
to = from +ℤ pos hour

scheduled_alike :
    (q : Row)
    → In q (early_word ∷ last_word ∷ [])
    → key q ≡ key early_word
    → q.scheduled_at ≡ some (pos 1_700_000_100_000_000_000)
scheduled_alike q (inl e) h = subst (λ r. r.scheduled_at ≡ early_word.scheduled_at) (sym e) refl
scheduled_alike q (inr (inl e)) h =
    subst (λ r. r.scheduled_at ≡ early_word.scheduled_at) (sym e) refl
scheduled_alike q (inr (inr no')) h = absurd no'

finals_lem_example :
    ((r : Row)
      → get (key early_word) (finals (pos 19674) (pos 19676) from to (early_word ∷ last_word ∷ []))
        ≡ some r
      → IsLast (key early_word) (early_word ∷ last_word ∷ []) r × (in_window from to r ≡ true))
    × (get (key early_word) (finals (pos 19674) (pos 19676) from to (early_word ∷ last_word ∷ []))
          ≡ none
        → (r : Row) → IsLast (key early_word) (early_word ∷ last_word ∷ []) r
        → in_window from to r ≡ false)
unfolding key
finals_lem_example =
    finals_lem (pos 19674) (pos 19676) from to (key early_word)
      (some (pos 1_700_000_100_000_000_000)) (early_word ∷ last_word ∷ [])
      (omega int_laws, omega int_laws) scheduled_alike

-- Noon of the day after, by the clock of the zone.
abbrev now : Time
now = pos 1_700_100_000_000_000_000

abbrev settle : ℤ
settle = pos (6 * hour)

rollup_lem_example :
    (rollup east now settle false db ≡ (db, none))
    × ((r : Result)
        → (rollup east now settle true db).1 ≡ some r
        → Moved db (rollup east now settle true db).0 r (now -ℤ settle) × Begins db r.from)
rollup_lem_example = rollup_lem east now settle db

abbrev job : Options
job = record { retention_days = pos 1; lookahead_days = pos 1; settle = settle }

abbrev ticked : TickOutcome
ticked = tick east job answers now now true db
