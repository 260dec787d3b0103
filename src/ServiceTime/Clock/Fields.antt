-- ===== src/ServiceTime/Clock/Fields.antt =====
-- Which texts are times, and of how many seconds.
use headway.Base.{
  ℕ, ◌+◌, ◌-◌, ◌*◌, ◌^◌, ◌≤◌, ℤ, int64, Bool, true, false, List, [], ◌∷◌, ◌++◌, none, some, leb,
  ◌==◌, ◌≡◌, refl, arith, Bool-cases, inl, inr, Option-cases, ap, ◌∙◌, sym, ==_iff, some_injective,
  ◌↔◌,
}
use headway.ServiceTime.Clock.{
  onto, split, all_digits, is_empty, value_from, atoi, field, seconds_of, of_parts, parse_gtfs_time,
}

-- A field of digits only, not empty, of a number that an int holds.
abbrev pub IsField : List ℕ → Type 0
IsField s =
    (is_empty s ≡ false) × (all_digits s ≡ true) × (leb (value_from 0 s) (2 ^ 63 - 1) ≡ true)

abbrev pub clock : List ℕ → List ℕ → List ℕ → List ℕ
clock h m s = h ++ b':' ∷ (m ++ b':' ∷ s)

digit_head :
    (c : ℕ) (a : List ℕ) → all_digits (c ∷ a) ≡ true → ((c == b':') ≡ false) × (all_digits a ≡ true)
digit_head c a h = (ground arith, ground arith)

split-digits : (a : List ℕ) → all_digits a ≡ true → split a ≡ a ∷ []
unfolding split
split-digits [] h = refl
split-digits (c ∷ a) h = let (other, rest) = digit_head c a h in rw (other, split-digits a rest)

split-colon : (a rest : List ℕ) → all_digits a ≡ true → split (a ++ b':' ∷ rest) ≡ a ∷ split rest
unfolding split
split-colon [] rest h = refl
split-colon (c ∷ a) rest h =
    let (other, more) = digit_head c a h in rw (other, split-colon a rest more)

field-IsField : (s : List ℕ) → IsField s → field s ≡ some (value_from 0 s)
unfolding field atoi
field-IsField s (e, d, r) = rw (e, d, r)

abbrev join : List (List ℕ) → List ℕ
join [] = []
join (p ∷ []) = p
join (p ∷ q ∷ ps) = p ++ b':' ∷ join (q ∷ ps)

join-onto : (c : ℕ) (ps : List (List ℕ)) → join (onto c ps) ≡ c ∷ join ps
join-onto c [] = refl
join-onto c (p ∷ []) = refl
join-onto c (p ∷ q ∷ ps) = refl

abbrev is_nil : List (List ℕ) → Bool
is_nil [] = true
is_nil (p ∷ ps) = false

onto-is_nil : (c : ℕ) (ps : List (List ℕ)) → is_nil (onto c ps) ≡ false
onto-is_nil c [] = refl
onto-is_nil c (p ∷ ps) = refl

cons_eq : (b c : ℕ) (s t : List ℕ) → b ≡ c → s ≡ t → b ∷ s ≡ c ∷ t
cons_eq b c s t e f = cc

none-some {ℓ} : {A : Type 0} {B : Type ℓ} {n : A} → none ≡ some n → B
none-some h = cc

split-is_nil : (s : List ℕ) → is_nil (split s) ≡ false
unfolding split
split-is_nil [] = refl
split-is_nil (c ∷ s) = elim (Bool-cases (c == b':')) [
  | inl e ↦ rw e
  | inr e ↦ rw e (onto-is_nil c (split s))
]

join-colon : (ps : List (List ℕ)) → is_nil ps ≡ false → join ([] ∷ ps) ≡ b':' ∷ join ps
join-colon [] h = ground arith
join-colon (p ∷ ps) h = refl

join-split : (s : List ℕ) → join (split s) ≡ s
unfolding split
join-split [] = refl
join-split (c ∷ s) = elim (Bool-cases (c == b':')) [
  | inl e ↦ rw e (
      join-colon (split s) (split-is_nil s)
      ∙ cons_eq b':' c (join (split s)) s (sym ((==_iff c b':').0 e)) (join-split s))
  | inr e ↦ rw (e, join-onto c (split s), join-split s)
]

field-cases : (s : List ℕ) (n : ℕ) → field s ≡ some n → IsField s × (n ≡ value_from 0 s)
unfolding field atoi
field-cases s n h = elim (Bool-cases (is_empty s)) [
  | inl e ↦ none-some (rw e at h)
  | inr e ↦ elim (Bool-cases (all_digits s)) [
    | inr d ↦ none-some (rw (e, d) at h)
    | inl d ↦ elim (Bool-cases (leb (value_from 0 s) (2 ^ 63 - 1))) [
      | inr r ↦ none-some (rw (e, d, r) at h)
      | inl r ↦ ((e, d, r), sym (some_injective (rw (e, d, r) at h)))
    ]
  ]
]

le-leb : (a b : ℕ) → a ≤ b → leb a b ≡ true
le-leb a b h = ground arith

-- Three fields that make a time of `z` seconds.
abbrev pub IsClock : List ℕ → List ℕ → List ℕ → ℤ → Type 0
IsClock h m s z =
    IsField h
    × IsField m
    × IsField s
    × (value_from 0 m ≤ 59)
    × (value_from 0 s ≤ 59)
    × (z ≡ int64 (value_from 0 h * 3600 + value_from 0 m * 60 + value_from 0 s))

seconds_of-cases :
    (h m s : ℕ) (z : ℤ)
    → seconds_of h m s ≡ some z
    → (m ≤ 59) × (s ≤ 59) × (z ≡ int64 (h * 3600 + m * 60 + s))
seconds_of-cases h m s z e = elim (Bool-cases (leb m 59)) [
  | inr a ↦ none-some (rw a at e)
  | inl a ↦ elim (Bool-cases (leb s 59)) [
    | inr b ↦ none-some (rw (a, b) at e)
    | inl b ↦ (ground (arith, a), ground (arith, b), sym (some_injective (rw (a, b) at e)))
  ]
]

seconds_of-within :
    (h m s : ℕ) → m ≤ 59 → s ≤ 59 → seconds_of h m s ≡ some (int64 (h * 3600 + m * 60 + s))
seconds_of-within h m s a b = rw (le-leb m 59 a, le-leb s 59 b)

parts-IsClock : (h m s : List ℕ) (z : ℤ) → of_parts (h ∷ m ∷ s ∷ []) ≡ some z → IsClock h m s z
parts-IsClock h m s z e = elim (Option-cases (field h)) [
  | inl a ↦ none-some (rw a at e)
  | inr (x, a) ↦ elim (Option-cases (field m)) [
    | inl b ↦ none-some (rw (a, b) at e)
    | inr (y, b) ↦ elim (Option-cases (field s)) [
      | inl c ↦ none-some (rw (a, b, c) at e)
      | inr (w, c) ↦
          let (fh, vh) = field-cases h x a in
          let (fm, vm) = field-cases m y b in
          let (fs, vs) = field-cases s w c in
          let (lm, ls, total) = seconds_of-cases x y w z (rw (a, b, c) at e) in
          (fh, fm, fs, rw (← vm) lm, rw (← vs) ls, rw (← vh, ← vm, ← vs) total)
    ]
  ]
]

of_parts-three :
    (ps : List (List ℕ)) (z : ℤ) → of_parts ps ≡ some z → (h m s : List ℕ) × (ps ≡ h ∷ m ∷ s ∷ [])
of_parts-three [] z e = none-some e
of_parts-three (a ∷ []) z e = none-some e
of_parts-three (a ∷ b ∷ []) z e = none-some e
of_parts-three (a ∷ b ∷ c ∷ []) z e = (a, b, c, refl)
of_parts-three (a ∷ b ∷ c ∷ d ∷ ps) z e = none-some e

clock-IsClock : (h m s : List ℕ) (z : ℤ) → IsClock h m s z → of_parts (split (clock h m s)) ≡ some z
clock-IsClock h m s z (fh, fm, fs, lm, ls, total) =
    rw
      (
        split-colon h (m ++ b':' ∷ s) fh.1,
        split-colon m s fm.1,
        split-digits s fs.1,
        field-IsField h fh,
        field-IsField m fm,
        field-IsField s fs,
      )
      (seconds_of-within (value_from 0 h) (value_from 0 m) (value_from 0 s) lm ls
        ∙ ap some (sym total))

-- A text is a time of `z` seconds exactly if it is three fields of digits, with colons between them, of
-- numbers that an int holds, of which the second and the third are below 60; and `z` is what they come
-- to, wrapped to 64 bits.
pub parse_gtfs_time_iff :
    (t : List ℕ) (z : ℤ)
    → (parse_gtfs_time t ≡ some z) ↔ ((h m s : List ℕ) × (t ≡ clock h m s) × IsClock h m s z)
unfolding parse_gtfs_time
parse_gtfs_time_iff t z = (
  λ e.
      let (h, m, s, parts) = of_parts-three (split t) z e in
      (h, m, s, sym (join-split t) ∙ ap join parts, parts-IsClock h m s z (rw parts at e)),
  λ (h, m, s, text, fields). rw text (clock-IsClock h m s z fields),
)
