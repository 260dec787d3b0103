-- ===== src/Rollup/Window/Finals.antt =====
-- The temporary table `final`: the last word on each visit whose hour lies in the window.
use headway.Base.{
  ◌≤ℤ◌, ltb_ℤ, leb_ℤ, leb_ℤ-true, Bool, true, false, ◌&&◌, List, [], ◌∷◌, Option, none, some, inl,
  inr, select, only_if, ◌≡◌, refl, sym, ap, ◌∙◌, subst, arith, int_laws, Bool-cases, Option-cases,
  some_injective, some_ne_none,
}
use headway.Base.Dict.{get, get-select_values}
use headway.ServiceTime.{Date, Time}
use headway.Ingest.{Key, key, key_eq, key_beq, key_beq_iff}
use headway.Rollup.Partitions.{Row, bucket_ts}
use headway.Rollup.Window.{scanned_at, scanned, later, last_words, in_window, finals}
use headway.Rollup.Window.Words.{
  In, IsLast, word, word-other, word-same, last_words-Distinct, word-absent, word-IsLast,
}

-- A row that is scanned makes no difference to whether an older word counts.
later-scanned :
    (s : Option Time) (from to : Time) (r : Row) (w : Option Row)
    → scanned_at s r.feed_ts from to ≡ true
    → some (later r (only_if (λ q. scanned_at s q.feed_ts from to) w))
      ≡ only_if (λ q. scanned_at s q.feed_ts from to) (some (later r w))
later-scanned none from to r none h = ground (arith, h)
later-scanned none from to r (some f) h = ground (arith, h)
later-scanned (some t) from to r none h = ground (arith, h)
later-scanned (some t) from to r (some f) h = ground (arith, h)

later-unscanned :
    (s : Option Time) (from to : Time) (r : Row) (w : Option Row)
    → scanned_at s r.feed_ts from to ≡ false
    → only_if (λ q. scanned_at s q.feed_ts from to) w
      ≡ only_if (λ q. scanned_at s q.feed_ts from to) (some (later r w))
later-unscanned none from to r none h = ground (arith, h)
later-unscanned none from to r (some f) h = ground (arith, h)
later-unscanned (some t) from to r none h = ground (arith, h)
later-unscanned (some t) from to r (some f) h = ground (arith, h)

module _ (lo hi : Date) (from to : Time) (v : Key)
    (dated : (lo ≤ℤ v.service_date) × (v.service_date ≤ℤ hi)) where
  scanned-at :
      (s : Option Time) (r : Row)
      → key r ≡ v
      → r.scheduled_at ≡ s
      → scanned lo hi from to r ≡ scanned_at s r.feed_ts from to
  unfolding scanned key
  scanned-at s r same at' =
      let date : r.service_date ≡ v.service_date = ap (λ (k : Key). k.service_date) same in
      let early : leb_ℤ lo r.service_date ≡ true = rw date (leb_ℤ-true lo v.service_date dated.0) in
      let late : leb_ℤ r.service_date hi ≡ true = rw date (leb_ℤ-true v.service_date hi dated.1) in
      rw (early, late, at') refl

  -- Scanning leaves a visit its last word, or nothing.
  word-select :
      (s : Option Time) (rows : List Row)
      → ((q : Row) → In q rows → key q ≡ v → q.scheduled_at ≡ s)
      → word v (select (scanned lo hi from to) rows)
        ≡ only_if (λ q. scanned_at s q.feed_ts from to) (word v rows)
  unfolding last_words get
  word-select s [] agree = refl
  word-select s (r ∷ rows) agree =
      let ih = word-select s rows (λ q i. agree q (inr i)) in
      elim (Bool-cases (key_beq (key r) v)) [
        | inr other ↦ elim (Bool-cases (scanned lo hi from to r)) [
          | inl yes' ↦
              rw
                (
                  yes',
                  word-other v r (select (scanned lo hi from to) rows) other,
                  word-other v r rows other,
                )
                ih
          | inr no' ↦ rw (no', word-other v r rows other) ih
        ]
        | inl mine ↦
            let same = (key_beq_iff (key r) v).0 mine in
            let test = scanned-at s r same (agree r (inl refl) same) in
            elim (Bool-cases (scanned_at s r.feed_ts from to)) [
              | inl yes' ↦
                  rw
                    (
                      test ∙ yes',
                      word-same v r (select (scanned lo hi from to) rows) same,
                      word-same v r rows same,
                      ih,
                    )
                    (later-scanned s from to r (word v rows) yes')
              | inr no' ↦
                  rw (test ∙ no', word-same v r rows same)
                    (ih ∙ later-unscanned s from to r (word v rows) no')
            ]
      ]

  -- A bucket in the window is one that the scan reads.
  scanned_window :
      (s : Option Time) (w : Option Row)
      → ((f : Row) → w ≡ some f → f.scheduled_at ≡ s)
      → only_if (in_window from to) (only_if (λ q. scanned_at s q.feed_ts from to) w)
        ≡ only_if (in_window from to) w
  scanned_window s none agree = refl
  scanned_window none (some f) agree = let e = agree f refl in ground (arith, e)
  scanned_window (some t) (some f) agree = let e = agree f refl in ground (arith, e)

  get-finals :
      (s : Option Time) (rows : List Row)
      → ((q : Row) → In q rows → key q ≡ v → q.scheduled_at ≡ s)
      → get v (finals lo hi from to rows) ≡ only_if (in_window from to) (word v rows)
  unfolding finals
  get-finals s rows agree =
      let read = select (scanned lo hi from to) rows in
      get-select_values (in_window from to) v (last_words read) (last_words-Distinct read)
      ∙ ap (only_if (in_window from to)) (word-select s rows agree)
      ∙ scanned_window s (word v rows) (λ f e. let l = word-IsLast v rows f e in agree f l.0 l.1)

  -- Two newest rows of a visit lie in the same bucket.
  same_bucket :
      (s : Option Time) (rows : List Row) (f r : Row)
      → ((q : Row) → In q rows → key q ≡ v → q.scheduled_at ≡ s)
      → IsLast v rows f
      → IsLast v rows r
      → bucket_ts f ≡ bucket_ts r
  same_bucket s rows f r agree lf lr =
      let ts : f.feed_ts ≡ r.feed_ts = omega (int_laws, lf.2 r lr.0 lr.1, lr.2 f lf.0 lf.1) in
      ground (arith, ts, agree f lf.0 lf.1, agree r lr.0 lr.1)

kept_some : (p : Row → Bool) (f r : Row) → only_if p (some f) ≡ some r → (f ≡ r) × (p r ≡ true)
kept_some p f r h = elim (Bool-cases (p f)) [
  | inl yes' ↦
      let same : f ≡ r = some_injective (rw yes' at h) in (same, subst (λ x. p x ≡ true) same yes')
  | inr no' ↦ some_ne_none {a = r} (sym (rw no' at h))
]

kept_none : (p : Row → Bool) (f : Row) → only_if p (some f) ≡ none → p f ≡ false
kept_none p f h = elim (Bool-cases (p f)) [
  | inl yes' ↦ some_ne_none {a = f} (rw yes' at h)
  | inr no' ↦ no'
]

-- If the rows of a visit agree on when it was scheduled, or all have no schedule, and its service date is
-- among those that the scan reads: the final word on it in a window is the newest of all its rows, not
-- only of those scanned, and is there exactly if that row's bucket lies in the window.
pub finals_lem :
    (lo hi : Date) (from to : Time) (v : Key) (s : Option Time) (rows : List Row)
    → (lo ≤ℤ v.service_date) × (v.service_date ≤ℤ hi)
    → ((q : Row) → In q rows → key q ≡ v → q.scheduled_at ≡ s)
    → ((r : Row)
        → get v (finals lo hi from to rows) ≡ some r
        → IsLast v rows r × (in_window from to r ≡ true))
      × (get v (finals lo hi from to rows) ≡ none
          → (r : Row) → IsLast v rows r
          → in_window from to r ≡ false)
finals_lem lo hi from to v s rows dated agree =
    let e = get-finals lo hi from to v dated s rows agree in
    (
      λ r h. elim (Option-cases (word v rows)) [
        | inl absent ↦ some_ne_none {a = r} (sym h ∙ e ∙ ap (only_if (in_window from to)) absent)
        | inr (f, here) ↦
            let kept : only_if (in_window from to) (some f) ≡ some r =
              ap (only_if (in_window from to)) (sym here) ∙ sym e ∙ h in
            let (same, inside) = kept_some (in_window from to) f r kept in
            (word-IsLast v rows r (here ∙ ap some same), inside)
      ],
      λ h r last. elim (Option-cases (word v rows)) [
        | inl absent ↦ absurd (word-absent v rows absent r last.0 last.1)
        | inr (f, here) ↦
            let left : only_if (in_window from to) (some f) ≡ none =
              ap (only_if (in_window from to)) (sym here) ∙ sym e ∙ h in
            let bucket =
              same_bucket lo hi from to v dated s rows f r agree (word-IsLast v rows f here) last in
            ap (λ t. leb_ℤ from t && ltb_ℤ t to) (sym bucket) ∙ kept_none (in_window from to) f left
      ],
    )
