-- ===== src/Config/Env.antt =====
-- internal/config/env.go: typed values out of the environment, with every problem recorded. The parsers of
-- Go's library that a value goes through are parameters; strconv.Atoi is the one of GtfsStatic/Row.
pub mod Reads
use headway.Base.{
  ℕ, ℤ, pos, String, str_eq, Bool, true, false, not, List, [], ◌∷◌, ◌++◌, Option, none, some,
  if◌then◌else◌,
}
use headway.Civil.{codes}
use headway.ServiceTime.{Duration}
use headway.GtfsStatic.Row.{atoi}

-- A variable that is required and not set, or a value that is not of its kind.
pub data Problem : Type 0 where
  not_set : String → Problem
  malformed : String → String → Problem

-- strings.TrimSpace and EqualFold, and the parsers.
pub record Parsers : Type 1 where
  pub Float : Type 0
  pub Level : Type 0
  pub trim_space : String → String
  pub equal_fold : String → String → Bool
  pub split_comma : String → List String
  pub parse_duration : String → Option Duration
  pub parse_float : String → Option Float
  pub parse_bool : String → Option Bool
  pub parse_level : String → Option Level
  pub parse_clock : String → Option (ℕ × ℕ)

-- A method's value, and what it adds to l.errs.
abbrev pub Read {ℓ} : Type ℓ → Type ℓ
Read A = A × List Problem

module _ (p : Parsers) (lookup : String → Option String) where
  abbrev pub set_value : String → Option String
  set_value v = if str_eq v "" then none else some v

  abbrev pub trimmed : Option String → Option String
  trimmed none = none
  trimmed (some v) = set_value (p.trim_space v)

  -- `none` if the variable is not set, or only to spaces.
  unfoldable pub raw : String → Option String
  raw key = trimmed (lookup key)

  abbrev pub or_default {ℓ} : {A : Type ℓ} → String → String → A → Option A → Read A
  or_default key v def none = (def, malformed key v ∷ [])
  or_default key v def (some a) = (a, [])

  -- The shape that dur, int, float, boolean and level share.
  abbrev pub parsed_value {ℓ} :
      {A : Type ℓ} → (String → Option A) → String → A → Option String → Read A
  parsed_value parse key def none = (def, [])
  parsed_value parse key def (some v) = or_default key v def (parse v)

  abbrev pub required_value : String → Option String → Read String
  required_value key none = ("", not_set key ∷ [])
  required_value key (some v) = (v, [])

  unfoldable pub required : String → Read String
  unfolding raw
  required key = required_value key (raw key)

  abbrev pub str_value : String → Option String → String
  str_value def none = def
  str_value def (some v) = v

  unfoldable pub str : String → String → String
  unfolding raw
  str key def = str_value def (raw key)

  unfoldable pub parts : List String → List String
  parts [] = []
  parts (s ∷ ss) =
      let rest = parts ss in if str_eq (p.trim_space s) "" then rest else p.trim_space s ∷ rest

  abbrev pub list_value : Option String → List String
  list_value none = []
  list_value (some v) = parts (p.split_comma v)

  unfoldable pub list : String → List String
  unfolding raw parts
  list key = list_value (raw key)

  unfoldable pub dur : String → Duration → Read Duration
  unfolding raw
  dur key def = parsed_value p.parse_duration key def (raw key)

  unfoldable pub int : String → ℤ → Read ℤ
  unfolding raw
  int key def = parsed_value (λ v. atoi (codes v)) key def (raw key)

  unfoldable pub float : String → p.Float → Read p.Float
  unfolding raw
  float key def = parsed_value p.parse_float key def (raw key)

  unfoldable pub boolean : String → Bool → Read Bool
  unfolding raw
  boolean key def = parsed_value p.parse_bool key def (raw key)

  unfoldable pub level : String → p.Level → Read p.Level
  unfolding raw
  level key def = parsed_value p.parse_level key def (raw key)

  -- The loop over the values allowed.
  unfoldable pub match_of : String → List String → Option String
  match_of v [] = none
  match_of v (a ∷ allowed) = if p.equal_fold v a then some a else match_of v allowed

  unfoldable pub enum : String → String → List String → Read String
  unfolding raw match_of
  enum key def allowed = parsed_value (λ v. match_of v allowed) key def (raw key)

  unfoldable pub time_of_day : String → ℕ × ℕ → Read (ℕ × ℕ)
  unfolding raw
  time_of_day key def = parsed_value p.parse_clock key def (raw key)
