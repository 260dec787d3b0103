-- ===== src/Rollup/Partitions/Retention.antt =====
-- DropPartitionsBefore: what it may drop, and what it leaves.
use headway.Base.{
  ◌≤ℤ◌, ◌<ℤ◌, ltb_ℤ, eqb_ℤ, eqb_ℤ_iff, Bool, true, false, List, [], ◌∷◌, ◌++◌, none, ◌⊎◌, ◌≡◌, refl,
  sym, ◌∙◌, subst, arith, Bool-cases, inl, inr, Option-cases, some_ne_none, true_ne_false, ltb_ℤ→lt,
  ltb_ℤ→ge,
}
use headway.Base.Eq.{int_eq}
use headway.Base.Dict.{get, has, get-remove, get-remove_self}
use headway.ServiceTime.{Date}
use headway.Rollup.Partitions.{
  Row, Tables, Answers, bucket_ts, partitions, has_date, pending_rows, pending, drop_partition,
  drop_days, drop_partitions_before,
}
use headway.Rollup.Partitions.Rows.{
  total, remove-absent, count_daily-remove, has_date-partitions_of,
}
use headway.Rollup.Partitions.Placement.{Placed, IsPlaced, not_has}
use headway.Rollup.Partitions.Dropping.{
  get-remove-none, drop_partition-IsPlaced, MustStay, count_droppable, Ascends, le_of_listed,
  partitions_of-Ascends,
}

module _ (a : Answers) (cutoff : Date) where
  record Keeps (before after : Tables) : Type 0 where
    placed : IsPlaced after
    rows_kept : (p : Row → Bool) → MustStay cutoff before p → total p after ≡ total p before
    mark_kept : after.watermark ≡ before.watermark
    default_kept : after.default_rows ≡ before.default_rows
    gone : (e : Date) → get e before.daily ≡ none → get e after.daily ≡ none
    waits : (e : Date) → pending e before ≡ true → pending e after ≡ true
    recent : (e : Date) → cutoff ≤ℤ e → get e after.daily ≡ get e before.daily

  same_tables : (db : Tables) → IsPlaced db → Keeps db db
  same_tables db v = record {
    placed = v;
    rows_kept = λ p h. refl;
    mark_kept = refl;
    default_kept = refl;
    gone = λ e h. h;
    waits = λ e h. h;
    recent = λ e h. refl;
  }

  differs : (d e : Date) → d <ℤ cutoff → cutoff ≤ℤ e → eqb_ℤ d e ≡ false
  differs d e early late = ground arith

  total-drop_partition :
      (d : Date) (db : Tables) (p : Row → Bool)
      → IsPlaced db
      → MustStay cutoff db p
      → d <ℤ cutoff
      → pending d db ≡ false
      → total p (drop_partition d db) ≡ total p db
  total-drop_partition d db p v stay early done = elim (Option-cases (get d db.daily)) [
    | inl absent ↦ rw (remove-absent d db.daily absent) refl
    | inr (rows, here) ↦ omega (
      arith,
      count_daily-remove p d db.daily {rows = rows} v.keys here (
          count_droppable cutoff d db p rows stay early
            (subst (λ o. Placed d o db.default_rows) here (v.rows_placed d)).0
            (rw (here, pending) at done)),
    )
  ]

  drop_one :
      (d : Date) (db : Tables)
      → IsPlaced db
      → d <ℤ cutoff
      → pending d db ≡ false
      → Keeps db (drop_partition d db)
  drop_one d db v early done = record {
    placed = drop_partition-IsPlaced d db v;
    rows_kept = λ p stay. total-drop_partition d db p v stay early done;
    mark_kept = refl;
    default_kept = refl;
    gone = λ e h. get-remove-none d e db.daily h;
    waits = λ e h. elim (Bool-cases (eqb_ℤ d e)) [
      | inl same ↦ true_ne_false (sym h ∙ rw (← (eqb_ℤ_iff d e).0 same) done)
      | inr other ↦ rw (get-remove d e db.daily, pending, pending_rows) (rw other h)
    ];
    recent = λ e h. get-remove d e db.daily ∙ rw (differs d e early h) refl;
  }

  Keeps-trans : (x y z : Tables) → Keeps x y → Keeps y z → Keeps x z
  Keeps-trans x y z h k = record {
    placed = k.placed;
    rows_kept = λ p stay.
        k.rows_kept p (
          subst (λ m. (r : Row) → p r ≡ true → (m ≤ℤ bucket_ts r) ⊎ (cutoff ≤ℤ r.service_date))
            (sym h.mark_kept) stay)
        ∙ h.rows_kept p stay;
    mark_kept = k.mark_kept ∙ h.mark_kept;
    default_kept = k.default_kept ∙ h.default_kept;
    gone = λ e g. k.gone e (h.gone e g);
    waits = λ e g. k.waits e (h.waits e g);
    recent = λ e g. k.recent e g ∙ h.recent e g;
  }

  drop_days-Keeps :
      (ds : List Date) (db : Tables) (dropped : List Date)
      → IsPlaced db
      → Keeps db (drop_days a cutoff ds db dropped).0
  unfolding drop_days
  drop_days-Keeps [] db dropped v = same_tables db v
  drop_days-Keeps (d ∷ ds) db dropped v = elim (Bool-cases (ltb_ℤ d cutoff)) [
    | inr late ↦ rw late (same_tables db v)
    | inl early ↦ elim (Bool-cases (a.reads d)) [
      | inr unread ↦ rw (early, unread) (same_tables db v)
      | inl read ↦ elim (Bool-cases (pending d db)) [
        | inl waits ↦ rw (early, read, waits) (drop_days-Keeps ds db dropped v)
        | inr done ↦ elim (Bool-cases (a.drops d)) [
          | inr fails ↦ rw (early, read, done, fails) (same_tables db v)
          | inl commits ↦
              let one = drop_one d db v (ltb_ℤ→lt d cutoff early) done in
              rw (early, read, done, commits)
                (Keeps-trans db (drop_partition d db) _ one
                  (drop_days-Keeps ds (drop_partition d db) (dropped ++ d ∷ []) one.placed))
        ]
      ]
    ]
  ]

  -- If no transaction fails, a listed partition before the cutoff that is left is pending.
  drop_days_complete :
      (ds : List Date) (db : Tables) (dropped : List Date)
      → IsPlaced db
      → Ascends ds
      → (drop_days a cutoff ds db dropped).2 ≡ none
      → (e : Date) → e <ℤ cutoff
      → has_date e ds ≡ true
      → has e (drop_days a cutoff ds db dropped).0.daily ≡ true
      → pending e (drop_days a cutoff ds db dropped).0 ≡ true
  unfolding drop_days Ascends
  drop_days_complete [] db dropped v up ok e lo mem left = cc
  drop_days_complete (d ∷ ds) db dropped v up ok e lo mem left =
      elim (Bool-cases (ltb_ℤ d cutoff)) [
        | inr late ↦ absurd (omega (arith, le_of_listed e d ds up mem, ltb_ℤ→ge d cutoff late, lo))
        | inl early ↦ elim (Bool-cases (a.reads d)) [
          | inr unread ↦ some_ne_none (rw (early, unread) at ok)
          | inl read ↦ elim (Bool-cases (pending d db)) [
            | inl waits ↦ elim (Bool-cases (eqb_ℤ e d)) [
              | inl same ↦
                  rw (early, read, waits)
                    ((drop_days-Keeps ds db dropped v).waits e (rw ((eqb_ℤ_iff e d).0 same) waits))
              | inr other ↦
                  rw (early, read, waits)
                    (drop_days_complete ds db dropped v up.1 (rw (early, read, waits) at ok) e lo
                      (rw other at mem) (rw (early, read, waits) at left))
            ]
            | inr done ↦ elim (Bool-cases (a.drops d)) [
              | inr fails ↦ some_ne_none (rw (early, read, done, fails) at ok)
              | inl commits ↦
                  let next = drop_partition d db in
                  let v' = (drop_one d db v (ltb_ℤ→lt d cutoff early) done).placed in
                  rw (early, read, done, commits)
                    (elim (Bool-cases (eqb_ℤ e d)) [
                      | inl same ↦
                          let rest = drop_days-Keeps ds next (dropped ++ d ∷ []) v' in
                          let absent : get e next.daily ≡ none =
                            rw ((eqb_ℤ_iff e d).0 same) (get-remove_self d db.daily) in
                          true_ne_false (
                            sym (rw (early, read, done, commits) at left)
                            ∙ rw (rest.gone e absent, has) refl)
                      | inr other ↦
                          drop_days_complete ds next (dropped ++ d ∷ []) v' up.1
                            (rw (early, read, done, commits) at ok) e lo (rw other at mem)
                            (rw (early, read, done, commits) at left)
                    ])
            ]
          ]
        ]
      ]

-- The partitions of the cutoff and later stay as they are.
pub drop_partitions_before-recent :
    (a : Answers) (cutoff : Date) (db : Tables)
    → IsPlaced db
    → (e : Date) → cutoff ≤ℤ e
    → get e (drop_partitions_before a cutoff db).0.daily ≡ get e db.daily
unfolding drop_partitions_before
drop_partitions_before-recent a cutoff db v e h = elim (Bool-cases a.lists) [
  | inr unread ↦ rw unread refl
  | inl read ↦ rw read ((drop_days-Keeps a cutoff (partitions db) db [] v).recent e h)
]

-- Whatever the database answers, DropPartitionsBefore keeps, whatever test picks them, all rows that are
-- bucketed at or past the watermark or of the cutoff's date or later, the default partition and the
-- watermark, and leaves the rows of a partition on its date, if that was so before. If it returns no
-- error, each partition left before the cutoff holds a row at or past the watermark.
pub drop_partitions_before_lem :
    (a : Answers) (cutoff : Date) (db : Tables)
    → IsPlaced db
    → IsPlaced (drop_partitions_before a cutoff db).0
      × ((p : Row → Bool)
          → MustStay cutoff db p
          → total p (drop_partitions_before a cutoff db).0 ≡ total p db)
      × ((drop_partitions_before a cutoff db).0.watermark ≡ db.watermark)
      × ((drop_partitions_before a cutoff db).0.default_rows ≡ db.default_rows)
      × ((drop_partitions_before a cutoff db).2 ≡ none
          → (e : Date) → e <ℤ cutoff
          → has e (drop_partitions_before a cutoff db).0.daily ≡ true
          → pending e (drop_partitions_before a cutoff db).0 ≡ true)
unfolding drop_partitions_before
drop_partitions_before_lem a cutoff db v = elim (Bool-cases a.lists) [
  | inr unread ↦ rw unread (v, λ p h. refl, refl, refl, λ ok. some_ne_none ok)
  | inl read ↦
      let k = drop_days-Keeps a cutoff (partitions db) db [] v in
      rw read (
        k.placed,
        k.rows_kept,
        k.mark_kept,
        k.default_kept,
        λ ok e lo left. elim (Bool-cases (has e db.daily)) [
          | inl there ↦
              drop_days_complete a cutoff (partitions db) db [] v (partitions_of-Ascends db.daily)
                ok e lo (has_date-partitions_of e db.daily ∙ there) left
          | inr absent ↦
              true_ne_false (sym left ∙ rw (k.gone e (not_has e db.daily absent), has) refl)
        ],
      )
]
