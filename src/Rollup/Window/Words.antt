-- ===== src/Rollup/Window/Words.antt =====
-- The row that the statement picks for a visit.
use headway.Base.{
  ◌≤ℤ◌, ltb_ℤ, ltb_ℤ→lt, ltb_ℤ→ge, false, List, [], ◌∷◌, Option, none, some, ◌⊎◌, inl, inr, ◌≡◌,
  ◌≢◌, refl, sym, ap, ◌∙◌, subst, arith, Bool-cases, some_injective, some_ne_none, true_ne_false,
}
use headway.Base.Dict.{get, get-put, Distinct, put-Distinct}
use headway.Ingest.{Key, key, key_eq, key_beq, key_beq_iff}
use headway.Rollup.Partitions.{Row}
use headway.Rollup.Window.{later, last_words}

abbrev pub In : Row → List Row → Type 0
In r [] = ⊥
In r (q ∷ rows) = (r ≡ q) ⊎ In r rows

-- The row is one of the visit's, and none of them is newer.
abbrev pub IsLast : Key → List Row → Row → Type 0
IsLast v rows r =
    In r rows × (key r ≡ v) × ((q : Row) → In q rows → key q ≡ v → q.feed_ts ≤ℤ r.feed_ts)

-- The row that the statement picks for a visit.
abbrev pub word : Key → List Row → Option Row
word v rows = get v (last_words rows)

pub word-other :
    (v : Key) (r : Row) (rows : List Row)
    → key_beq (key r) v ≡ false
    → word v (r ∷ rows) ≡ word v rows
unfolding last_words
word-other v r rows h =
    get-put (key r) v (later r (word (key r) rows)) (last_words rows) ∙ (rw h refl)

pub word-same :
    (v : Key) (r : Row) (rows : List Row)
    → key r ≡ v
    → word v (r ∷ rows) ≡ some (later r (word v rows))
unfolding last_words
word-same v r rows h =
    get-put (key r) v (later r (word (key r) rows)) (last_words rows)
    ∙ rw ((key_beq_iff (key r) v).1 h) (rw h refl)

pub last_words-Distinct : (rows : List Row) → Distinct (last_words rows)
unfolding last_words
last_words-Distinct [] = tt
last_words-Distinct (r ∷ rows) =
    put-Distinct (key r) (later r (word (key r) rows)) (last_words rows) (last_words-Distinct rows)

-- Nothing is picked for a visit that has no row.
pub word-absent :
    (v : Key) (rows : List Row) → word v rows ≡ none → (q : Row) → In q rows → key q ≢ v
unfolding last_words get
word-absent v [] h q i same = absurd i
word-absent v (r ∷ rows) h q i same = elim (Bool-cases (key_beq (key r) v)) [
  | inl mine ↦ some_ne_none (sym (word-same v r rows ((key_beq_iff (key r) v).0 mine)) ∙ h)
  | inr other ↦ elim i [
    | inl e ↦ true_ne_false (sym ((key_beq_iff (key r) v).1 (ap key (sym e) ∙ same)) ∙ other)
    | inr deeper ↦ word-absent v rows (sym (word-other v r rows other) ∙ h) q deeper same
  ]
]

pub le_same : (q r : Row) → q ≡ r → q.feed_ts ≤ℤ r.feed_ts
le_same q r e = rw e (omega arith)

pub later_cases :
    (v : Key) (r : Row) (rows : List Row) (o : Option Row)
    → key r ≡ v
    → word v rows ≡ o
    → ((f : Row) → o ≡ some f → IsLast v rows f)
    → IsLast v (r ∷ rows) (later r o)
later_cases v r rows none mine here ih = (
  inl refl,
  mine,
  λ q i same. elim i [
    | inl e ↦ le_same q r e
    | inr deeper ↦ absurd (word-absent v rows here q deeper same)
  ],
)
later_cases v r rows (some f) mine here ih =
    let old = ih f refl in
    elim (Bool-cases (ltb_ℤ f.feed_ts r.feed_ts)) [
      | inl newer ↦
          let e : later r (some f) ≡ r = rw newer refl in
          subst (IsLast v (r ∷ rows)) (sym e) (
            inl refl,
            mine,
            λ q i same. elim i [
              | inl e' ↦ le_same q r e'
              | inr deeper ↦ omega (arith, old.2 q deeper same, ltb_ℤ→lt f.feed_ts r.feed_ts newer)
            ],
          )
      | inr older ↦
          let e : later r (some f) ≡ f = rw older refl in
          subst (IsLast v (r ∷ rows)) (sym e) (
            inr old.0,
            old.1,
            λ q i same. elim i [
              | inl e' ↦ omega (arith, le_same q r e', ltb_ℤ→ge f.feed_ts r.feed_ts older)
              | inr deeper ↦ old.2 q deeper same
            ],
          )
    ]

pub word-IsLast :
    (v : Key) (rows : List Row) (f : Row) → get v (last_words rows) ≡ some f → IsLast v rows f
unfolding get last_words
word-IsLast v [] f h = absurd (some_ne_none {a = f} (sym h))
word-IsLast v (r ∷ rows) f h = elim (Bool-cases (key_beq (key r) v)) [
  | inl mine ↦
      let same = (key_beq_iff (key r) v).0 mine in
      subst (IsLast v (r ∷ rows)) (some_injective (sym (word-same v r rows same) ∙ h))
        (later_cases v r rows (word v rows) same refl (word-IsLast v rows))
  | inr other ↦
      let old = word-IsLast v rows f (sym (word-other v r rows other) ∙ h) in
      (
        inr old.0,
        old.1,
        λ q i same. elim i [
          | inl e ↦ true_ne_false (sym ((key_beq_iff (key r) v).1 (ap key (sym e) ∙ same)) ∙ other)
          | inr deeper ↦ old.2 q deeper same
        ],
      )
]
