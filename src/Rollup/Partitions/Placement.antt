-- ===== src/Rollup/Partitions/Placement.antt =====
-- EnsurePartitions: every day of the range gets its partition, and every row keeps its place.
use headway.Base.{
  ℕ, zero, suc, pos, ◌+ℤ◌, ◌≤ℤ◌, ◌<ℤ◌, +ℤ_parts, three_way, lt, eq, gt, eqb_ℤ, eqb_ℤ_iff, Bool,
  true, false, not, List, [], ◌∷◌, ◌++◌, Option, none, some, select, All, ◌≡◌, refl, sym, ◌∙◌,
  arith, int_laws, Bool-cases, inl, inr, Option-cases, some_ne_none, true_ne_false,
}
use headway.Base.Eq.{int_eq}
use headway.Base.Dict.{Dict, get, has, get-put, Distinct, put-Distinct}
use headway.ServiceTime.{Date}
use headway.Rollup.Partitions.{
  Row, Tables, Answers, partitions, has_date, any_row, of_date, create_partition, ensure_days, days,
  ensure_partitions,
}
use headway.Rollup.Partitions.Rows.{
  total, total-create_partition, has_date-partitions_of, watermark-create_partition,
  get-create_partition_ne, has-create_partition,
}

-- The rows of a partition are of its date, and the default partition holds none of that date.
abbrev pub Placed : Date → Option (List Row) → List Row → Type 0
Placed d none rest = Unit
Placed d (some rows) rest = All (λ r. of_date d r ≡ true) rows × (any_row (of_date d) rest ≡ false)

pub record IsPlaced (db : Tables) : Type 0 where
  pub keys : Distinct db.daily
  pub rows_placed : (d : Date) → Placed d (get d db.daily) db.default_rows

select-of : (d : Date) (rows : List Row) → All (λ r. of_date d r ≡ true) (select (of_date d) rows)
select-of d [] = tt
select-of d (r ∷ rows) = ground (arith, select-of d rows)

none_left :
    (d : Date) (rows : List Row)
    → any_row (of_date d) (select (λ r. not (of_date d r)) rows) ≡ false
none_left d [] = refl
none_left d (r ∷ rows) = ground (arith, none_left d rows)

none_more :
    (q p : Row → Bool) (rows : List Row)
    → any_row p rows ≡ false
    → any_row p (select q rows) ≡ false
none_more q p [] h = refl
none_more q p (r ∷ rows) h = ground (arith, none_more q p rows)

Placed-fewer :
    (q : Row → Bool) (e : Date) (o : Option (List Row)) (rest : List Row)
    → Placed e o rest
    → Placed e o (select q rest)
Placed-fewer q e none rest h = tt
Placed-fewer q e (some rows) rest h = (h.0, none_more q (of_date e) rest h.1)

module _ (d : Date) (db : Tables) (missing : get d db.daily ≡ none) where
  create_partition-IsPlaced : IsPlaced db → IsPlaced (create_partition d db)
  unfolding create_partition
  create_partition-IsPlaced v = elim (Bool-cases (any_row (of_date d) db.default_rows)) [
    | inl stranded ↦
        let moved = select (of_date d) db.default_rows in
        let rest = select (λ r. not (of_date d r)) db.default_rows in
        rw stranded (record {
          keys = put-Distinct d moved db.daily v.keys;
          rows_placed = λ e. rw (get-put d e moved db.daily) (elim (Bool-cases (eqb_ℤ d e)) [
            | inl same ↦
                rw (same, ← (eqb_ℤ_iff d e).0 same)
                  (select-of d db.default_rows, none_left d db.default_rows)
            | inr other ↦ rw other (
                Placed-fewer (λ r. not (of_date d r)) e (get e db.daily) db.default_rows
                  (v.rows_placed e))
          ]);
        })
    | inr fresh ↦ rw fresh (record {
      keys = put-Distinct d [] db.daily v.keys;
      rows_placed = λ e. rw (get-put d e [] db.daily) (elim (Bool-cases (eqb_ℤ d e)) [
        | inl same ↦ rw (same, ← (eqb_ℤ_iff d e).0 same) (tt, fresh)
        | inr other ↦ rw other (v.rows_placed e)
      ]);
    })
  ]

has-create_more :
    (d e : Date) (db : Tables) → has e db.daily ≡ true → has e (create_partition d db).daily ≡ true
has-create_more d e db h = elim (Bool-cases (eqb_ℤ d e)) [
  | inl same ↦ rw (← (eqb_ℤ_iff d e).0 same) (has-create_partition d db)
  | inr other ↦ rw (get-create_partition_ne d e db other, has) h
]

module _ (a : Answers) (have : List Date) where
  -- The days from `d` on that were not listed have no partition yet.
  abbrev Ahead : Date → Tables → Type 0
  Ahead d db = (e : Date) → d ≤ℤ e → has_date e have ≡ false → get e db.daily ≡ none

  Ahead-skip : (d : Date) (db : Tables) → Ahead d db → Ahead (d +ℤ pos 1) db
  Ahead-skip d db h e le = h e (omega (int_laws, le))

  Ahead-create : (d : Date) (db : Tables) → Ahead d db → Ahead (d +ℤ pos 1) (create_partition d db)
  Ahead-create d db h e le new =
      get-create_partition_ne d e db (ground (arith, +ℤ_parts d (pos 1)))
      ∙ h e (omega (int_laws, le)) new

  -- What an outcome keeps of the tables before it.
  record Keeps (before after : Tables) : Type 0 where
    placed : IsPlaced after
    rows_kept : (p : Row → Bool) → total p after ≡ total p before
    mark_kept : after.watermark ≡ before.watermark

  ensure_days-Keeps :
      (n : ℕ) (d : Date) (db : Tables) (created : List Date)
      → Ahead d db
      → IsPlaced db
      → Keeps db (ensure_days a have n d db created).0
  unfolding ensure_days
  ensure_days-Keeps zero d db created h v = record {
    placed = v;
    rows_kept = λ p. refl;
    mark_kept = refl;
  }
  ensure_days-Keeps (suc n) d db created h v = elim (Bool-cases (has_date d have)) [
    | inl old ↦ rw old (ensure_days-Keeps n (d +ℤ pos 1) db created (Ahead-skip d db h) v)
    | inr new ↦ elim (Bool-cases (a.creates d)) [
      | inl commits ↦
          let missing = h d (omega arith) new in
          let rest =
            ensure_days-Keeps n (d +ℤ pos 1) (create_partition d db) (created ++ d ∷ [])
              (Ahead-create d db h) (create_partition-IsPlaced d db missing v) in
          rw (new, commits)
            (record {
              placed = rest.placed;
              rows_kept = λ p. rest.rows_kept p ∙ total-create_partition p d db missing;
              mark_kept = rest.mark_kept ∙ watermark-create_partition d db;
            })
      | inr fails ↦ rw (new, fails) (record { placed = v; rows_kept = λ p. refl; mark_kept = refl })
    ]
  ]

  -- Partitions that exist stay.
  ensure_days-grows :
      (n : ℕ) (d : Date) (db : Tables) (created : List Date) (e : Date)
      → has e db.daily ≡ true
      → has e (ensure_days a have n d db created).0.daily ≡ true
  unfolding ensure_days
  ensure_days-grows zero d db created e h = h
  ensure_days-grows (suc n) d db created e h = ground (
    arith,
    ensure_days-grows n (d +ℤ pos 1) db created e h,
    ensure_days-grows n (d +ℤ pos 1) (create_partition d db) (created ++ d ∷ []) e
        (has-create_more d e db h),
  )

  ensure_days-covers :
      (n : ℕ) (d : Date) (db : Tables) (created : List Date)
      → ((e : Date) → has_date e have ≡ true → has e db.daily ≡ true)
      → (ensure_days a have n d db created).2 ≡ none
      → (e : Date) → d ≤ℤ e
      → e <ℤ d +ℤ pos n
      → has e (ensure_days a have n d db created).0.daily ≡ true
  unfolding ensure_days
  ensure_days-covers zero d db created known ok e lo hi = absurd (omega (int_laws, hi))
  ensure_days-covers (suc n) d db created known ok e lo hi = elim (Bool-cases (has_date d have)) [
    | inl old ↦ elim (three_way d e) [
      | lt l ↦ rw old (
          ensure_days-covers n (d +ℤ pos 1) db created known (rw old at ok) e (omega (int_laws, l))
            (omega (int_laws, hi)))
      | eq same ↦ rw old (ensure_days-grows n (d +ℤ pos 1) db created e (known e (rw same at old)))
      | gt g ↦ absurd (omega (arith, g))
    ]
    | inr new ↦ elim (Bool-cases (a.creates d)) [
      | inl commits ↦ elim (three_way d e) [
        | lt l ↦
            rw (new, commits)
              (ensure_days-covers n (d +ℤ pos 1) (create_partition d db) (created ++ d ∷ [])
                (λ x hx. has-create_more d x db (known x hx)) (rw (new, commits) at ok) e
                (omega (int_laws, l)) (omega (int_laws, hi)))
        | eq same ↦
            rw (new, commits)
              (ensure_days-grows n (d +ℤ pos 1) (create_partition d db) (created ++ d ∷ []) e
                (rw (← same) (has-create_partition d db)))
        | gt g ↦ absurd (omega (arith, g))
      ]
      | inr fails ↦ some_ne_none (rw (new, fails) at ok)
    ]
  ]

-- Every listed date has a partition, and no other.
listed : (e : Date) (db : Tables) → has_date e (partitions db) ≡ has e db.daily
listed e db = has_date-partitions_of e db.daily

pub not_has : (e : Date) (m : Dict Date (List Row)) → has e m ≡ false → get e m ≡ none
not_has e m h = elim (Option-cases (get e m)) [
  | inl absent ↦ absent
  | inr (rows, here) ↦ true_ne_false (rw (here, has) at h)
]

-- Whatever the database answers, EnsurePartitions loses and adds no row, leaves the watermark, and keeps
-- every row of a partition on the partition's date, with none of that date in the default partition,
-- where that was so before. If it returns no error, each day of the range has a partition; a partition
-- that was there stays in any case.
pub ensure_partitions_lem :
    (a : Answers) (from to : Date) (db : Tables)
    → IsPlaced db
    → IsPlaced (ensure_partitions a from to db).0
      × ((p : Row → Bool) → total p (ensure_partitions a from to db).0 ≡ total p db)
      × ((ensure_partitions a from to db).0.watermark ≡ db.watermark)
      × ((e : Date) → has e db.daily ≡ true → has e (ensure_partitions a from to db).0.daily ≡ true)
      × ((ensure_partitions a from to db).2 ≡ none
          → (e : Date) → from ≤ℤ e
          → e ≤ℤ to
          → has e (ensure_partitions a from to db).0.daily ≡ true)
unfolding ensure_partitions
ensure_partitions_lem a from to db v = elim (Bool-cases a.lists) [
  | inl read ↦
      let n = days a from to in
      let ahead = λ (e : Date) (le : from ≤ℤ e) (h : has_date e (partitions db) ≡ false).
        not_has e db.daily (sym (listed e db) ∙ h) in
      let kept = ensure_days-Keeps a (partitions db) n from db [] ahead v in
      rw read (
        kept.placed,
        kept.rows_kept,
        kept.mark_kept,
        ensure_days-grows a (partitions db) n from db [],
        λ ok e lo hi.
            ensure_days-covers a (partitions db) n from db [] (λ x hx. sym (listed x db) ∙ hx) ok e
              lo (omega (int_laws, lo, hi)),
      )
  | inr unread ↦ rw unread (v, λ p. refl, refl, λ e h. h, λ ok. some_ne_none ok)
]
