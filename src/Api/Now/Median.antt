-- ===== src/Api/Now/Median.antt =====
-- The median of the delays.
use headway.Base.{
  ℕ, suc, zero, ◌-◌, ◌/◌, ◌<◌, ◌≤◌, ℤ, ◌≤ℤ◌, ltb_ℤ, leb_ℤ, ≤ℤ_trans, Bool, List, [], ◌∷◌, some,
  length, get_elem?, if◌then◌else◌, All, ◌≡◌, refl, arith, Bool-cases, leb_ℤ→le, leb_ℤ→ge, subst,
  some_injective, some_injective, inl, inr,
}
use headway.Api.Now.{insert_delay, sort_delays, median}

abbrev pub count : (ℤ → Bool) → List ℤ → ℕ
count p [] = 0
count p (x ∷ xs) = let rest = count p xs in if p x then suc rest else rest

count-insert_delay :
    (p : ℤ → Bool) (d : ℤ) (xs : List ℤ) → count p (insert_delay d xs) ≡ count p (d ∷ xs)
unfolding insert_delay
count-insert_delay p d [] = refl
count-insert_delay p d (x ∷ xs) = ground (arith, count-insert_delay p d xs)

count-sort_delays : (p : ℤ → Bool) (xs : List ℤ) → count p (sort_delays xs) ≡ count p xs
unfolding sort_delays
count-sort_delays p [] = refl
count-sort_delays p (x ∷ xs) =
    ground (arith, count-insert_delay p x (sort_delays xs), count-sort_delays p xs)

abbrev IsSorted : List ℤ → Type 0
IsSorted [] = Unit
IsSorted (x ∷ xs) = All (λ y. x ≤ℤ y) xs × IsSorted xs

insert_delay-All :
    (P : ℤ → Type 0) (d : ℤ) (xs : List ℤ) → P d → All P xs → All P (insert_delay d xs)
unfolding insert_delay
insert_delay-All P d [] h all = (h, tt)
insert_delay-All P d (x ∷ xs) h all = ground (arith, insert_delay-All P d xs h all.1)

All-le : (d e : ℤ) (xs : List ℤ) → d ≤ℤ e → All (λ y. e ≤ℤ y) xs → All (λ y. d ≤ℤ y) xs
All-le d e [] h all = tt
All-le d e (x ∷ xs) h all = (≤ℤ_trans d e x h all.0, All-le d e xs h all.1)

insert_delay-IsSorted : (d : ℤ) (xs : List ℤ) → IsSorted xs → IsSorted (insert_delay d xs)
unfolding insert_delay
insert_delay-IsSorted d [] h = (tt, tt)
insert_delay-IsSorted d (x ∷ xs) h = elim (Bool-cases (leb_ℤ d x)) [
  | inl e ↦ rw e (let le = leb_ℤ→le d x e in ((le, All-le d x xs le h.0), h))
  | inr e ↦
      rw e
        (insert_delay-All (λ y. x ≤ℤ y) d xs (leb_ℤ→ge d x e) h.0, insert_delay-IsSorted d xs h.1)
]

sort_delays-IsSorted : (xs : List ℤ) → IsSorted (sort_delays xs)
unfolding sort_delays
sort_delays-IsSorted [] = tt
sort_delays-IsSorted (x ∷ xs) = insert_delay-IsSorted x (sort_delays xs) (sort_delays-IsSorted xs)

count-none : (m : ℤ) (xs : List ℤ) → All (λ y. m ≤ℤ y) xs → count (λ y. ltb_ℤ y m) xs ≡ 0
count-none m [] h = refl
count-none m (x ∷ xs) h = ground (arith, h.0, count-none m xs h.1)

All-get_elem? :
    (P : ℤ → Type 0) (xs : List ℤ) (i : ℕ) (m : ℤ) → All P xs → get_elem? xs i ≡ some m → P m
All-get_elem? P [] i m h e = cc
All-get_elem? P (x ∷ xs) zero m h e = subst P (some_injective e) h.0
All-get_elem? P (x ∷ xs) (suc i) m h e = All-get_elem? P xs i m h.1 e

-- An element of a sorted list has at most its index below it, and more than its index not above it.
at_index :
    (xs : List ℤ) (i : ℕ) (m : ℤ)
    → IsSorted xs
    → get_elem? xs i ≡ some m
    → (count (λ y. ltb_ℤ y m) xs ≤ i) × (i < count (λ y. leb_ℤ y m) xs)
at_index [] i m h e = cc
at_index (x ∷ xs) zero m h e =
    subst (λ m. (count (λ y. ltb_ℤ y m) (x ∷ xs) ≤ 0) × (0 < count (λ y. leb_ℤ y m) (x ∷ xs)))
      (some_injective e) (ground (arith, count-none x xs h.0), ground arith)
at_index (x ∷ xs) (suc i) m h e =
    let le = All-get_elem? (λ y. x ≤ℤ y) xs i m h.0 e in
    let rest = at_index xs i m h.1 e in (ground (arith, rest.0), ground (arith, rest.1, le))

length-insert_delay : (d : ℤ) (xs : List ℤ) → length (insert_delay d xs) ≡ suc (length xs)
unfolding insert_delay
length-insert_delay d [] = refl
length-insert_delay d (x ∷ xs) = ground (arith, length-insert_delay d xs)

length-sort_delays : (xs : List ℤ) → length (sort_delays xs) ≡ length xs
unfolding sort_delays
length-sort_delays [] = refl
length-sort_delays (x ∷ xs) =
    omega (arith, length-insert_delay x (sort_delays xs), length-sort_delays xs)

get_elem?-some : (xs : List ℤ) (i : ℕ) → i < length xs → (m : ℤ) × (get_elem? xs i ≡ some m)
get_elem?-some [] i h = elim h [ ]
get_elem?-some (x ∷ xs) zero h = (x, refl)
get_elem?-some (x ∷ xs) (suc i) h = get_elem?-some xs i (omega arith)

-- The median of n delays is one with at most (n - 1) / 2 of the delays below it and more than
-- (n - 1) / 2 not above it, in whatever order the delays are; there is one unless there are none.
pub median_lem :
    (d : ℤ) (ds : List ℤ)
    → (m : ℤ) × (median (d ∷ ds) ≡ some m)
      × (count (λ y. ltb_ℤ y m) (d ∷ ds) ≤ length ds / 2)
      × (length ds / 2 < count (λ y. leb_ℤ y m) (d ∷ ds))
unfolding median
median_lem d ds =
    let xs = sort_delays (d ∷ ds) in
    let len = length-sort_delays (d ∷ ds) in
    let (m, e) = get_elem?-some xs ((length xs - 1) / 2) (rw len (omega arith)) in
    let (few, many) = at_index xs ((length xs - 1) / 2) m (sort_delays-IsSorted (d ∷ ds)) e in
    (
      m,
      e,
      omega (arith, few, len, count-sort_delays (λ y. ltb_ℤ y m) (d ∷ ds)),
      omega (arith, many, len, count-sort_delays (λ y. leb_ℤ y m) (d ∷ ds)),
    )
