-- ===== src/ServiceTime/Clock.antt =====
-- internal/servicetime/servicetime.go: ParseGTFSTime, on the bytes of a text.
pub mod Fields
use headway.Base.{
  ℕ, ◌+◌, ◌-◌, ◌*◌, ◌^◌, ℤ, int64, Bool, true, false, ◌&&◌, ◌||◌, not, List, [], ◌∷◌, Option, none,
  some, if◌then◌else◌, leb, ◌==◌, ◌>>=◌,
}

abbrev pub onto : ℕ → List (List ℕ) → List (List ℕ)
onto c [] = (c ∷ []) ∷ []
onto c (p ∷ ps) = (c ∷ p) ∷ ps

-- strings.Split(s, ":")
unfoldable pub split : List ℕ → List (List ℕ)
split [] = [] ∷ []
split (c ∷ s) = let rest = split s in if c == b':' then [] ∷ rest else onto c rest

abbrev pub is_digit : ℕ → Bool
is_digit c = leb b'0' c && leb c b'9'

-- strings.Trim of the digits leaves nothing exactly of these.
abbrev pub all_digits : List ℕ → Bool
all_digits [] = true
all_digits (c ∷ s) = is_digit c && all_digits s

abbrev pub is_empty : List ℕ → Bool
is_empty [] = true
is_empty (c ∷ s) = false

-- The number that digits after `n` make.
unfoldable pub value_from : ℕ → List ℕ → ℕ
value_from n [] = n
value_from n (c ∷ s) = value_from (n * 10 + (c - b'0')) s

-- strconv.Atoi of digits: a number above the largest int is out of range.
unfoldable pub atoi : List ℕ → Option ℕ
unfolding value_from
atoi s = if leb (value_from 0 s) (2 ^ 63 - 1) then some (value_from 0 s) else none

unfoldable pub field : List ℕ → Option ℕ
unfolding atoi
field s = if is_empty s || not (all_digits s) then none else atoi s

abbrev pub seconds_of : ℕ → ℕ → ℕ → Option ℤ
seconds_of h m s =
    if not (leb m 59) || not (leb s 59) then none else some (int64 (h * 3600 + m * 60 + s))

abbrev pub of_parts : List (List ℕ) → Option ℤ
of_parts (a ∷ b ∷ c ∷ []) = do h ← field a; m ← field b; s ← field c; seconds_of h m s
of_parts parts = none

unfoldable pub parse_gtfs_time : List ℕ → Option ℤ
unfolding split field
parse_gtfs_time s = of_parts (split s)
