-- ===== src/Rollup/Partitions/Dropping.antt =====
-- DropPartitionsBefore: one partition dropped, and the list of them in order.
use headway.Base.{
  ◌≤ℤ◌, ◌<ℤ◌, eqb_ℤ, eqb_ℤ_iff, leb_ℤ, Bool, true, false, List, [], ◌∷◌, none, ◌⊎◌, All, ◌≡◌, refl,
  arith, Bool-cases, inl, inr, leb_ℤ→ge, leb_ℤ→le,
}
use headway.Base.Eq.{int_eq}
use headway.Base.Dict.{Dict, get, remove, get-remove, Distinct}
use headway.ServiceTime.{Date}
use headway.Rollup.Partitions.{
  Row, Tables, bucket_ts, insert_date, partitions_of, has_date, any_row, of_date, unrolled,
  drop_partition,
}
use headway.Rollup.Partitions.Rows.{count, has_date-insert_date}
use headway.Rollup.Partitions.Placement.{IsPlaced}

pub get-remove-none :
    (d e : Date) (m : Dict Date (List Row)) → get e m ≡ none → get e (remove d m) ≡ none
get-remove-none d e m h = ground (arith, get-remove d e m)

pub remove-Distinct : (d : Date) (m : Dict Date (List Row)) → Distinct m → Distinct (remove d m)
unfolding remove
remove-Distinct d [] h = tt
remove-Distinct d ((e, rows) ∷ m) h =
    ground (arith, remove-Distinct d m h.1, get-remove-none d e m h.0)

pub drop_partition-IsPlaced :
    (d : Date) (db : Tables) → IsPlaced db → IsPlaced (drop_partition d db)
drop_partition-IsPlaced d db v = record {
  keys = remove-Distinct d db.daily v.keys;
  rows_placed = λ e. rw (get-remove d e db.daily) (elim (Bool-cases (eqb_ℤ d e)) [
    | inl same ↦ rw same tt
    | inr other ↦ rw other (v.rows_placed e)
  ]);
}

-- The rows that retention must keep: not rolled up yet, or of the cutoff's date or later.
abbrev pub MustStay : Date → Tables → (Row → Bool) → Type 0
MustStay cutoff db p =
    (r : Row) → p r ≡ true → (db.watermark ≤ℤ bucket_ts r) ⊎ (cutoff ≤ℤ r.service_date)

-- In a partition before the cutoff that is not pending none of these stands.
pub count_droppable :
    (cutoff d : Date) (db : Tables) (p : Row → Bool) (rows : List Row)
    → MustStay cutoff db p
    → d <ℤ cutoff
    → All (λ r. of_date d r ≡ true) rows
    → any_row (unrolled db.watermark) rows ≡ false
    → count p rows ≡ 0
count_droppable cutoff d db p [] stay early dates done = refl
count_droppable cutoff d db p (r ∷ rows) stay early dates done = elim (Bool-cases (p r)) [
  | inl chosen ↦ elim (stay r chosen) [ inl late ↦ ground arith | inr recent ↦ ground arith ]
  | inr other ↦
      rw other (omega (arith, count_droppable cutoff d db p rows stay early dates.1 (ground arith)))
]

-- The dates in order: none below comes later.
unfoldable pub Ascends : List Date → Type 0
Ascends [] = Unit
Ascends (d ∷ ds) = ((e : Date) → has_date e ds ≡ true → d ≤ℤ e) × Ascends ds

pub le_of_listed :
    (e d : Date) (ds : List Date) → Ascends (d ∷ ds) → has_date e (d ∷ ds) ≡ true → d ≤ℤ e
unfolding Ascends
le_of_listed e d ds up mem = elim (Bool-cases (eqb_ℤ e d)) [
  | inl same ↦ rw ((eqb_ℤ_iff e d).0 same) (omega arith)
  | inr other ↦ up.0 e (rw other at mem)
]

pub insert_date-Ascends : (d : Date) (ds : List Date) → Ascends ds → Ascends (insert_date d ds)
unfolding insert_date Ascends
insert_date-Ascends d [] up = (λ e h. cc, tt)
insert_date-Ascends d (x ∷ ds) up = elim (Bool-cases (leb_ℤ d x)) [
  | inl first ↦ rw first (λ e h. omega (arith, le_of_listed e x ds up h, leb_ℤ→le d x first), up)
  | inr later ↦ rw later (
    λ e h. elim (Bool-cases (eqb_ℤ e d)) [
      | inl same ↦ rw ((eqb_ℤ_iff e d).0 same) (leb_ℤ→ge d x later)
      | inr other ↦ up.0 e (rw (has_date-insert_date e d ds, other) at h)
    ],
    insert_date-Ascends d ds up.1,
  )
]

pub partitions_of-Ascends : (m : Dict Date (List Row)) → Ascends (partitions_of m)
unfolding partitions_of Ascends
partitions_of-Ascends [] = tt
partitions_of-Ascends ((d, rows) ∷ m) =
    insert_date-Ascends d (partitions_of m) (partitions_of-Ascends m)
