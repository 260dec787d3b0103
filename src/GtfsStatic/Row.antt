-- ===== src/GtfsStatic/Row.antt =====
-- internal/gtfsstatic/parse.go: a record's fields by column name.
use headway.Base.{
  ℕ, ◌-◌, ◌^◌, ℤ, pos, leb, leb_ℤ, sub_ℕ, String, str_eq, Bool, not, ◌||◌, List, [], ◌∷◌, Option,
  none, some, if◌then◌else◌, get_elem?, ◌==◌,
}
use headway.Base.Eq.{string_eq}
use headway.Base.Dict.{Dict, get}
use headway.ServiceTime.{Date}
use headway.ServiceTime.Clock.{is_empty, all_digits, value_from, parse_gtfs_time}
use headway.Civil.{codes, parse_compact}

-- What is wrong with a column.
pub data RowError : Type 0 where
  missing : String → RowError
  malformed : String → RowError
  beyond : String → RowError
  not_allowed : String → RowError

-- A value, or what is wrong with the record.
pub data Parsed {ℓ} (A : Type ℓ) : Type ℓ where
  wrong : RowError → Parsed A
  ok : A → Parsed A

infixl 5 ◌>>=◌
abbrev pub ◌>>=◌ {κ ℓ} : {B : Type κ} {A : Type ℓ} → Parsed B → (B → Parsed A) → Parsed A
wrong x >>= next = wrong x
ok b >>= next = next b

abbrev pub require {ℓ} : {A : Type ℓ} → RowError → Option A → Parsed A
require e none = wrong e
require e (some a) = ok a

pub record Row : Type 0 where
  pub rec : List String
  pub idx : Dict String ℕ

abbrev pub minus : ℕ
minus = 45

abbrev pub plus : ℕ
plus = 43

-- strconv.Atoi: a sign or none, digits, and no more than an int holds.
abbrev pub magnitude : ℕ → List ℕ → Option ℕ
magnitude most s =
    if is_empty s || not (all_digits s)
    then none
    else if leb (value_from 0 s) most
    then some (value_from 0 s)
    else none

abbrev pub negated : Option ℕ → Option ℤ
negated none = none
negated (some n) = some (sub_ℕ 0 n)

abbrev pub not_negated : Option ℕ → Option ℤ
not_negated none = none
not_negated (some n) = some (pos n)

unfoldable pub atoi : List ℕ → Option ℤ
unfolding value_from
atoi [] = none
atoi (c ∷ s) =
    if c == minus
    then negated (magnitude (2 ^ 63) s)
    else if c == plus
    then not_negated (magnitude (2 ^ 63 - 1) s)
    else not_negated (magnitude (2 ^ 63 - 1) (c ∷ s))

abbrev pub cell : List String → Option ℕ → String
cell rec none = ""
cell rec (some i) = elim (get_elem? rec i) [ none ↦ "" | some s ↦ s ]

unfoldable pub str : Row → String → String
str r col = cell r.rec (get col r.idx)

abbrev pub is_blank : String → Bool
is_blank s = str_eq s ""

unfoldable pub null : Row → String → Option String
unfolding str
null r col = if is_blank (str r col) then none else some (str r col)

unfoldable pub need : Row → String → Parsed String
unfolding str
need r col = if is_blank (str r col) then wrong (missing col) else ok (str r col)

unfoldable pub int : Row → String → ℤ → Parsed ℤ
unfolding str atoi
int r col def =
    if is_blank (str r col) then ok def else require (malformed col) (atoi (codes (str r col)))

unfoldable pub opt_int : Row → String → Parsed (Option ℤ)
unfolding int
opt_int r col = if is_blank (str r col) then ok none else do n ← int r col (pos 0); ok (some n)

-- `parse_float` stands for strconv.ParseFloat.
unfoldable pub float {ℓ} : {F : Type ℓ} → (String → Option F) → Row → String → Parsed (Option F)
unfolding str
float parse_float r col =
    if is_blank (str r col)
    then ok none
    else do f ← require (malformed col) (parse_float (str r col)); ok (some f)

unfoldable pub date : Row → String → Parsed Date
unfolding need parse_compact
date r col = do s ← need r col; require (malformed col) (parse_compact (codes s))

abbrev pub within : String → ℤ → ℤ → Parsed (Option ℤ)
within col max_s n = if not (leb_ℤ n max_s) then wrong (beyond col) else ok (some n)

unfoldable pub stop_time : Row → String → ℤ → Parsed (Option ℤ)
unfolding str parse_gtfs_time
stop_time r col max_s =
    if is_blank (str r col)
    then ok none
    else do n ← require (malformed col) (parse_gtfs_time (codes (str r col))); within col max_s n
