-- ===== src/Ingest/Filter.antt =====
-- internal/ingest/filter.go: the change filter. The mutex makes each method one step, and a step is a
-- function of the state here. The counters do not wrap.
pub mod Changes
pub mod Bounds
pub mod Panics
use headway.Base.{
  ℕ, zero, suc, ◌+◌, ◌/◌, ℤ, pos, ◌-ℤ◌, int32, eqb_ℤ, ltb_ℤ, Bool, true, false, ◌||◌, ◌&&◌, not,
  List, [], ◌∷◌, Option, none, some, length, take, if◌then◌else◌, leb, ltb,
}
use headway.Base.Dict.{Dict, get, put, remove, has}
use headway.ServiceTime.{Date}
use headway.Ingest.{Observation, Key, key, key_eq}

pub record Entry : Type 0 where
  pub delay : ℤ
  pub has_delay : Bool
  pub stop_time_rel : ℤ
  pub trip_rel : ℤ
  pub matched : Bool
  pub service_date : Date
  pub seq : ℕ

pub record Filter : Type 0 where
  pub min_delta : ℤ
  pub max_entries : ℕ
  pub entries : Dict Key Entry
  pub seq : ℕ
  pub suppressed : ℕ
  pub admitted : ℕ
  pub evicted : ℕ

pub record FilterStats : Type 0 where
  pub suppressed : ℕ
  pub admitted : ℕ
  pub evicted : ℕ
  pub entries : ℕ

unfoldable pub new_filter : ℤ → ℕ → Filter
new_filter min_delta max_entries = record {
  min_delta = min_delta;
  max_entries = max_entries;
  entries = [];
  seq = 0;
  suppressed = 0;
  admitted = 0;
  evicted = 0;
}

unfoldable pub stats : Filter → FilterStats
stats f = record {
  suppressed = f.suppressed;
  admitted = f.admitted;
  evicted = f.evicted;
  entries = length f.entries;
}

unfoldable pub len : Filter → ℕ
len f = length f.entries

-- -v of an int32 that is its own negation stays negative, as it does in the source.
unfoldable pub abs32 : ℤ → ℤ
abs32 v = if ltb_ℤ v (pos 0) then int32 (pos 0 -ℤ v) else v

abbrev pub beq : Bool → Bool → Bool
beq true b = b
beq false b = not b

unfoldable pub changed : Entry → Entry → ℤ → Bool
unfolding abs32
changed prev now min_delta =
    if not (eqb_ℤ prev.stop_time_rel now.stop_time_rel)
      || not (eqb_ℤ prev.trip_rel now.trip_rel)
      || not (beq prev.matched now.matched)
    then true
    else if not (beq prev.has_delay now.has_delay)
    then true
    else if not now.has_delay
    then false
    else ltb_ℤ min_delta (abs32 (int32 (now.delay -ℤ prev.delay)))

abbrev delay_of : Option ℤ → ℤ
delay_of none = pos 0
delay_of (some d) = d

abbrev is_some : Option ℤ → Bool
is_some none = false
is_some (some d) = true

-- The entry of an observation, not yet numbered.
unfoldable pub entry_of : Observation → Entry
entry_of o = record {
  delay = delay_of o.observed_delay_s;
  has_delay = is_some o.observed_delay_s;
  stop_time_rel = o.stop_time_rel;
  trip_rel = o.trip_rel;
  matched = o.matched;
  service_date = o.service_date;
  seq = 0;
}

-- sort.Slice by seq.
unfoldable pub insert_by_seq : Key × Entry → List (Key × Entry) → List (Key × Entry)
insert_by_seq a [] = a ∷ []
insert_by_seq a (b ∷ bs) =
    let rest = insert_by_seq a bs in if leb a.1.seq b.1.seq then a ∷ b ∷ bs else b ∷ rest

unfoldable pub sort_by_seq : List (Key × Entry) → List (Key × Entry)
unfolding insert_by_seq
sort_by_seq [] = []
sort_by_seq (a ∷ as') = insert_by_seq a (sort_by_seq as')

unfoldable pub remove_all : List (Key × Entry) → Dict Key Entry → Dict Key Entry
remove_all [] m = m
remove_all ((k, e) ∷ as') m = remove_all as' (remove k m)

abbrev pub at_least_one : ℕ → ℕ
at_least_one zero = 1
at_least_one (suc n) = suc n

-- How many entries an eviction drops.
abbrev pub quota : Filter → ℕ
quota f = at_least_one (length f.entries / 10)

unfoldable pub evict_oldest : Filter → Filter
unfolding remove_all sort_by_seq
evict_oldest f = record f {
  entries = remove_all (take (quota f) (sort_by_seq f.entries)) f.entries;
  evicted = f.evicted + quota f;
}

-- Room for one more.
unfoldable pub make_room : Filter → Filter
unfolding evict_oldest
make_room f = if leb f.max_entries (length f.entries) then evict_oldest f else f

unfoldable pub record_entry : Key → Entry → Filter → Filter
record_entry k now f = record f {
  seq = suc f.seq;
  entries = put k (record now { seq = suc f.seq }) f.entries;
  admitted = suc f.admitted;
}

unfoldable pub admit : Observation → Filter → Filter × Bool
unfolding entry_of make_room record_entry
admit o f =
    let k = key o in
    let now = entry_of o in
    elim (get k f.entries) [
      | none ↦ (record_entry k now (make_room f), true)
      | some prev ↦
          if changed prev now f.min_delta
          then (record_entry k now f, true)
          else (record f { suppressed = suc f.suppressed }, false)
    ]

-- Whether the eviction takes more entries than there are, which panics. `admit` stands for Admit where
-- this is false.
unfoldable pub admit_panics : Observation → Filter → Bool
admit_panics o f =
    not (has (key o) f.entries)
    && leb f.max_entries (length f.entries)
    && ltb (length f.entries) (quota f)

unfoldable pub keep_from : Date → Dict Key Entry → Dict Key Entry
keep_from cutoff [] = []
keep_from cutoff ((k, e) ∷ m) =
    let rest = keep_from cutoff m in if ltb_ℤ e.service_date cutoff then rest else (k, e) ∷ rest

-- The entries of earlier service dates.
unfoldable pub count_before : Date → Dict Key Entry → ℕ
count_before cutoff [] = 0
count_before cutoff ((k, e) ∷ m) =
    let rest = count_before cutoff m in if ltb_ℤ e.service_date cutoff then suc rest else rest

unfoldable pub expire_before : Date → Filter → Filter × ℕ
unfolding keep_from count_before
expire_before cutoff f =
    let n = count_before cutoff f.entries in
    (record f { entries = keep_from cutoff f.entries; evicted = f.evicted + n }, n)

unfoldable pub forget : Key → Filter → Filter
forget k f = record f { entries = remove k f.entries }
