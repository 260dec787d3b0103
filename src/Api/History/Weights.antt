-- ===== src/Api/History/Weights.antt =====
-- The weighted median.
use headway.Base.{
  ℕ, zero, suc, ◌+◌, ◌*◌, ◌≤◌, ◌<◌, ℤ, ◌≤ℤ◌, ltb_ℤ, leb_ℤ, leb_ℤ→le, leb_ℤ→ge, leb_ℤ-true, ≤ℤ_trans,
  Bool, true, List, [], ◌∷◌, Option, none, some, if◌then◌else◌, leb, All, ◌≡◌, refl, arith,
  Bool-cases, inl, inr, ◌⊎◌,
}
use headway.Api.History.{
  HourRow, keep, weight, values, total_weight, insert_value, sort_values, at_half, median_of,
  weighted_median,
}

-- The weight of the values with a property.
abbrev pub weight_of : (ℤ → Bool) → List (ℤ × ℕ) → ℕ
weight_of p [] = 0
weight_of p (x ∷ xs) = let rest = weight_of p xs in if p x.0 then x.1 + rest else rest

weight_of-insert_value :
    (p : ℤ → Bool) (x : ℤ × ℕ) (xs : List (ℤ × ℕ))
    → weight_of p (insert_value x xs) ≡ weight_of p (x ∷ xs)
unfolding insert_value
weight_of-insert_value p x [] = refl
weight_of-insert_value p x (y ∷ ys) = ground (arith, weight_of-insert_value p x ys)

weight_of-sort_values :
    (p : ℤ → Bool) (xs : List (ℤ × ℕ)) → weight_of p (sort_values xs) ≡ weight_of p xs
unfolding sort_values
weight_of-sort_values p [] = refl
weight_of-sort_values p (x ∷ xs) =
    ground (arith, weight_of-insert_value p x (sort_values xs), weight_of-sort_values p xs)

total_weight-weight_of : (xs : List (ℤ × ℕ)) → weight_of (λ v. true) xs ≡ total_weight xs
unfolding total_weight
total_weight-weight_of [] = refl
total_weight-weight_of (x ∷ xs) = omega (arith, total_weight-weight_of xs)

abbrev From : ℤ → List (ℤ × ℕ) → Type 0
From lo xs = All (λ x. lo ≤ℤ x.0) xs

abbrev IsSorted : List (ℤ × ℕ) → Type 0
IsSorted [] = Unit
IsSorted (x ∷ xs) = From x.0 xs × IsSorted xs

From-insert_value :
    (lo : ℤ) (x : ℤ × ℕ) (xs : List (ℤ × ℕ)) → lo ≤ℤ x.0 → From lo xs → From lo (insert_value x xs)
unfolding insert_value
From-insert_value lo x [] h all = (h, tt)
From-insert_value lo x (y ∷ ys) h all = ground (arith, h, all.0, From-insert_value lo x ys h all.1)

From-trans : (lo mid : ℤ) (xs : List (ℤ × ℕ)) → lo ≤ℤ mid → From mid xs → From lo xs
From-trans lo mid [] h all = tt
From-trans lo mid (x ∷ xs) h all = (≤ℤ_trans lo mid x.0 h all.0, From-trans lo mid xs h all.1)

insert_value-IsSorted : (x : ℤ × ℕ) (xs : List (ℤ × ℕ)) → IsSorted xs → IsSorted (insert_value x xs)
unfolding insert_value
insert_value-IsSorted x [] h = (tt, tt)
insert_value-IsSorted x (y ∷ ys) h = elim (Bool-cases (leb_ℤ x.0 y.0)) [
  | inl e ↦ rw e (let le = leb_ℤ→le x.0 y.0 e in ((le, From-trans x.0 y.0 ys le h.0), h))
  | inr e ↦
      rw e (From-insert_value y.0 x ys (leb_ℤ→ge x.0 y.0 e) h.0, insert_value-IsSorted x ys h.1)
]

sort_values-IsSorted : (xs : List (ℤ × ℕ)) → IsSorted (sort_values xs)
unfolding sort_values
sort_values-IsSorted [] = tt
sort_values-IsSorted (x ∷ xs) = insert_value-IsSorted x (sort_values xs) (sort_values-IsSorted xs)

weight_of-none : (lo : ℤ) (xs : List (ℤ × ℕ)) → From lo xs → weight_of (λ v. ltb_ℤ v lo) xs ≡ 0
weight_of-none lo [] h = refl
weight_of-none lo (x ∷ xs) h = ground (arith, h.0, weight_of-none lo xs h.1)

part-le : (b : Bool) (w n : ℕ) → (if b then w + n else n) ≤ w + n
part-le b w n = ground arith

part-whole : (b : Bool) (w n : ℕ) → b ≡ true → (if b then w + n else n) ≡ w + n
part-whole b w n h = ground arith

abbrev Halves : ℕ → ℕ → List (ℤ × ℕ) → Option ℤ → Type 0
Halves total acc xs r =
    (m : ℤ) × (r ≡ some m)
    × ((lo : ℤ) → From lo xs → lo ≤ℤ m)
    × (2 * (acc + weight_of (λ v. ltb_ℤ v m) xs) < total)
    × (total ≤ 2 * (acc + weight_of (λ v. leb_ℤ v m) xs))

at_half-Halves :
    (total acc : ℕ) (xs : List (ℤ × ℕ))
    → IsSorted xs
    → 2 * acc < total
    → total ≤ 2 * (acc + weight_of (λ v. true) xs)
    → Halves total acc xs (at_half total acc xs)
unfolding at_half
at_half-Halves total acc [] s h k = absurd (omega (arith, h, k))
at_half-Halves total acc ((v, w) ∷ xs) s h k = elim (Bool-cases (leb total (2 * (acc + w)))) [
  | inl e ↦
      rw e (v, refl, λ lo all. all.0, ground (arith, h, weight_of-none v xs s.0), ground (arith, e))
  | inr e ↦
      let (m, found, low, few, many) =
        at_half-Halves total (acc + w) xs s.1 (ground (arith, e)) (omega (arith, k)) in
      rw e (
        m,
        found,
        λ lo all. low lo all.1,
        omega (arith, few, part-le (ltb_ℤ v m) w (weight_of (λ y. ltb_ℤ y m) xs)),
        omega (
          arith,
          many,
          part-whole (leb_ℤ v m) w (weight_of (λ y. leb_ℤ y m) xs) (leb_ℤ-true v m (low v s.0)),
        ),
      )
]

keep-heavy :
    (v : Option ℤ) (w : ℕ) (xs : List (ℤ × ℕ))
    → All (λ x. 0 < x.1) xs
    → All (λ x. 0 < x.1) (keep v w xs)
keep-heavy none w xs h = h
keep-heavy (some v) zero xs h = h
keep-heavy (some v) (suc w) xs h = (omega arith, h)

values-heavy :
    (pick : HourRow → Option ℤ) (rows : List HourRow) → All (λ x. 0 < x.1) (values pick rows)
unfolding values
values-heavy pick [] = tt
values-heavy pick (r ∷ rows) =
    keep-heavy (pick r) (weight r) (values pick rows) (values-heavy pick rows)

median_of-Halves :
    (x : ℤ × ℕ) (xs : List (ℤ × ℕ))
    → 0 < x.1
    → (m : ℤ) × (median_of (x ∷ xs) ≡ some m)
      × (2 * weight_of (λ v. ltb_ℤ v m) (x ∷ xs) < total_weight (x ∷ xs))
      × (total_weight (x ∷ xs) ≤ 2 * weight_of (λ v. leb_ℤ v m) (x ∷ xs))
unfolding total_weight
median_of-Halves x xs heavy =
    let all = total_weight-weight_of (x ∷ xs) in
    let ys = sort_values (x ∷ xs) in
    let total = total_weight (x ∷ xs) in
    let (m, found, low, few, many) =
      at_half-Halves total 0 ys (sort_values-IsSorted (x ∷ xs)) (omega (arith, heavy))
        (omega (arith, all, weight_of-sort_values (λ v. true) (x ∷ xs))) in
    (
      m,
      found,
      omega (arith, few, weight_of-sort_values (λ v. ltb_ℤ v m) (x ∷ xs)),
      omega (arith, many, weight_of-sort_values (λ v. leb_ℤ v m) (x ∷ xs)),
    )

of_values :
    (xs : List (ℤ × ℕ))
    → All (λ x. 0 < x.1) xs
    → ((xs ≡ []) × (median_of xs ≡ none))
      ⊎ ((m : ℤ) × (median_of xs ≡ some m)
          × (2 * weight_of (λ v. ltb_ℤ v m) xs < total_weight xs)
          × (total_weight xs ≤ 2 * weight_of (λ v. leb_ℤ v m) xs))
of_values [] h = inl (refl, refl)
of_values (x ∷ xs) h = inr (median_of-Halves x xs h.0)

-- A percentile of several rows is a value of them, weighted by their visits with a delay: less than half
-- of the weight lies below it, and at least half not above it, in whatever order the rows are. There is
-- none exactly when no row has both a value and such a visit.
pub weighted_median_lem :
    (pick : HourRow → Option ℤ) (rows : List HourRow)
    → ((values pick rows ≡ []) × (weighted_median pick rows ≡ none))
      ⊎ ((m : ℤ) × (weighted_median pick rows ≡ some m)
          × (2 * weight_of (λ v. ltb_ℤ v m) (values pick rows) < total_weight (values pick rows))
          × (total_weight (values pick rows) ≤ 2 * weight_of (λ v. leb_ℤ v m) (values pick rows)))
unfolding weighted_median
weighted_median_lem pick rows = of_values (values pick rows) (values-heavy pick rows)
