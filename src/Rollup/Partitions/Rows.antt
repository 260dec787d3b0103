-- ===== src/Rollup/Partitions/Rows.antt =====
-- Rows counted over all partitions, and the transaction that creates a partition.
use headway.Base.{
  ℕ, ◌+◌, ◌≤◌, eqb_ℤ, eqb_ℤ_iff, Bool, true, false, not, ◌||◌, List, [], ◌∷◌, none, some,
  if◌then◌else◌, select, ◌≡◌, refl, ap, subst, some_injective, arith, Bool-cases, inl, inr,
}
use headway.Base.Eq.{int_eq}
use headway.Base.Dict.{Dict, get, put, remove, has, get-put, Distinct}
use headway.ServiceTime.{Date}
use headway.Rollup.Partitions.{
  Row, Tables, insert_date, partitions_of, has_date, any_row, of_date, create_partition,
}

abbrev pub count : (Row → Bool) → List Row → ℕ
count p [] = 0
count p (r ∷ rows) = (if p r then 1 else 0) + count p rows

abbrev pub count_daily : (Row → Bool) → Dict Date (List Row) → ℕ
count_daily p [] = 0
count_daily p ((d, rows) ∷ m) = count p rows + count_daily p m

-- The rows of the table that pass a test.
abbrev pub total : (Row → Bool) → Tables → ℕ
total p db = count p db.default_rows + count_daily p db.daily

count-select :
    (p q : Row → Bool) (rows : List Row)
    → count p (select q rows) + count p (select (λ r. not (q r)) rows) ≡ count p rows
count-select p q [] = refl
count-select p q (r ∷ rows) = ground (arith, count-select p q rows)

count_daily-put :
    (p : Row → Bool) (d : Date) (rows : List Row) (m : Dict Date (List Row))
    → get d m ≡ none
    → count_daily p (put d rows m) ≡ count_daily p m + count p rows
unfolding get put
count_daily-put p d rows [] h = omega arith
count_daily-put p d rows ((e, old) ∷ m) h = ground (arith, count_daily-put p d rows m)

pub total-create_partition :
    (p : Row → Bool) (d : Date) (db : Tables)
    → get d db.daily ≡ none
    → total p (create_partition d db) ≡ total p db
unfolding create_partition
total-create_partition p d db h = elim (Bool-cases (any_row (of_date d) db.default_rows)) [
  | inl stranded ↦ rw stranded (
      omega (
        arith,
        count_daily-put p d (select (of_date d) db.default_rows) db.daily h,
        count-select p (of_date d) db.default_rows,
      ))
  | inr none_there ↦ rw none_there (omega (arith, count_daily-put p d [] db.daily h))
]

pub count_daily-remove_le :
    (p : Row → Bool) (d : Date) (m : Dict Date (List Row))
    → count_daily p (remove d m) ≤ count_daily p m
unfolding remove
count_daily-remove_le p d [] = omega arith
count_daily-remove_le p d ((e, old) ∷ m) = ground (arith, count_daily-remove_le p d m)

pub remove-absent : (d : Date) (m : Dict Date (List Row)) → get d m ≡ none → remove d m ≡ m
unfolding get remove
remove-absent d [] h = refl
remove-absent d ((e, old) ∷ m) h = ground (arith, remove-absent d m)

-- Removing a partition without rows that pass the test keeps their number.
pub count_daily-remove :
    (p : Row → Bool) (d : Date) (m : Dict Date (List Row)) {rows : List Row}
    → Distinct m
    → get d m ≡ some rows
    → count p rows ≡ 0
    → count_daily p (remove d m) ≡ count_daily p m
unfolding get remove
count_daily-remove p d [] h g c = cc
count_daily-remove p d ((e, old) ∷ m) {rows} h g c = elim (Bool-cases (eqb_ℤ e d)) [
  | inl same ↦
      let it : old ≡ rows = some_injective (rw same at g) in
      rw same (
        rw (remove-absent d m (subst (λ x. get x m ≡ none) ((eqb_ℤ_iff e d).0 same) h.0))
          (omega (arith, ap (count p) it, c)))
  | inr other ↦ rw other (omega (arith, count_daily-remove p d m h.1 (rw other at g) c))
]

-- partitions lists the dates that have one.
pub has_date-insert_date :
    (e d : Date) (ds : List Date) → has_date e (insert_date d ds) ≡ (eqb_ℤ e d || has_date e ds)
unfolding insert_date
has_date-insert_date e d [] = refl
has_date-insert_date e d (x ∷ ds) = ground (arith, has_date-insert_date e d ds)

pub has_date-partitions_of :
    (e : Date) (m : Dict Date (List Row)) → has_date e (partitions_of m) ≡ has e m
unfolding partitions_of get
has_date-partitions_of e [] = refl
has_date-partitions_of e ((d, rows) ∷ m) =
    ground (arith, has_date-insert_date e d (partitions_of m), has_date-partitions_of e m)

pub watermark-create_partition :
    (d : Date) (db : Tables) → (create_partition d db).watermark ≡ db.watermark
unfolding create_partition
watermark-create_partition d db = ground arith

-- Creating a date's partition leaves those of the other dates.
pub get-create_partition_ne :
    (d e : Date) (db : Tables)
    → eqb_ℤ d e ≡ false
    → get e (create_partition d db).daily ≡ get e db.daily
unfolding create_partition
get-create_partition_ne d e db h =
    ground
      (arith, get-put d e (select (of_date d) db.default_rows) db.daily, get-put d e [] db.daily)

pub has-create_partition : (d : Date) (db : Tables) → has d (create_partition d db).daily ≡ true
unfolding create_partition
has-create_partition d db =
    ground
      (arith, get-put d d (select (of_date d) db.default_rows) db.daily, get-put d d [] db.daily)
