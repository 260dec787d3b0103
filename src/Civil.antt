-- ===== src/Civil.antt =====
-- Calendar dates of Go's time package: `time.Parse("20060102", s)` as a number of days.
use Prim.Native.Char.{code}
use headway.Base.{
  ℕ, zero, suc, ◌+◌, ◌-◌, ◌*◌, ◌/◌, ◌%◌, pos, ◌-ℤ◌, String, Bool, ◌&&◌, ◌||◌, not, List, [], ◌∷◌,
  Option, none, some, leb, ◌==◌, if◌then◌else◌, ◌≡◌, refl,
}
use headway.ServiceTime.{Date}

-- The code points of a text: its bytes, where it is ASCII.
abbrev pub codes : String → List ℕ
codes String.[] = []
codes (String.◌∷◌ c s) = code c ∷ codes s

abbrev pub is_digit : ℕ → Bool
is_digit c = leb b'0' c && leb c b'9'

abbrev pub is_leap : ℕ → Bool
is_leap y = (y % 4 == 0) && (not (y % 100 == 0) || (y % 400 == 0))

unfoldable pub days_in : ℕ → ℕ → ℕ
days_in month y =
    if month == 2
    then (if is_leap y then 29 else 28)
    else if month == 4 || month == 6 || month == 9 || month == 11
    then 30
    else 31

-- The days of the first months of the year.
unfoldable pub days_before_month : ℕ → ℕ → ℕ
unfolding days_in
days_before_month zero y = 0
days_before_month (suc m) y = days_before_month m y + (if m == 0 then 0 else days_in m y)

-- From the start of the year 0 to the start of `y`.
abbrev pub days_before_year : ℕ → ℕ
days_before_year y = y * 365 + (y + 3) / 4 - (y + 99) / 100 + (y + 399) / 400

unfoldable pub date_of : ℕ → ℕ → ℕ → Date
unfolding days_before_month
date_of y month day =
    pos (days_before_year y + days_before_month month y + (day - 1)) -ℤ pos 719_528

abbrev two : ℕ → ℕ → ℕ
two a b = 10 * (a - b'0') + (b - b'0')

unfoldable pub check_date : ℕ → ℕ → ℕ → Option Date
unfolding date_of days_in
check_date y month day =
    if leb 1 month && leb month 12 && leb 1 day && leb day (days_in month y)
    then some (date_of y month day)
    else none

-- Eight digits of a date that exists.
unfoldable pub parse_compact : List ℕ → Option Date
unfolding check_date
parse_compact (a ∷ b ∷ c ∷ d ∷ e ∷ f ∷ g ∷ h ∷ []) =
    if is_digit a
      && is_digit b
      && is_digit c
      && is_digit d
      && is_digit e
      && is_digit f
      && is_digit g
      && is_digit h
    then check_date (100 * two a b + two c d) (two e f) (two g h)
    else none
parse_compact _ = none

epoch : parse_compact (codes "19700101") ≡ some (pos 0)
unfolding parse_compact ◌-ℤ◌
epoch = refl

october_change : parse_compact (codes "20261004") ≡ some (pos 20_730)
unfolding parse_compact ◌-ℤ◌
october_change = refl

no_such_day : parse_compact (codes "20260230") ≡ none
unfolding parse_compact
no_such_day = refl
