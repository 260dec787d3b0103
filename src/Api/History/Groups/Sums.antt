-- ===== src/Api/History/Groups/Sums.antt =====
-- The buckets' counts against the totals.
use headway.Base.{ℕ, ◌+◌, Bool, List, [], ◌∷◌, ◌++◌, ◌≡◌, sym, ap, ◌∙◌, arith}
use headway.ServiceTime.{Zone}
use headway.Api.History.{HourRow}
use headway.Api.History.Groups.{Combined, add_row, add_rows, nothing, combine, group_rows}
use headway.Api.History.Groups.Runs.{concat, group_rows_lem}

total : (HourRow → ℕ) → List HourRow → ℕ
total f [] = 0
total f (r ∷ rows) = f r + total f rows

total-append :
    (f : HourRow → ℕ) (xs ys : List HourRow) → total f (xs ++ ys) ≡ total f xs + total f ys
unfolding total
total-append f [] ys = omega arith
total-append f (x ∷ xs) ys = omega (arith, total-append f xs ys)

-- A count that combine adds up: how it is read from a row and from the result.
abbrev Counts : (HourRow → ℕ) → (Combined → ℕ) → Type 0
Counts f g = (rows : List HourRow) → g (combine rows) ≡ total f rows

pub sum_of : (Combined → ℕ) → List (List HourRow) → ℕ
sum_of g [] = 0
sum_of g (rows ∷ groups) = g (combine rows) + sum_of g groups

sum_of-concat :
    (f : HourRow → ℕ) (g : Combined → ℕ)
    → Counts f g
    → (groups : List (List HourRow)) → sum_of g groups ≡ g (combine (concat groups))
unfolding sum_of total
sum_of-concat f g c [] = sym (c [])
sum_of-concat f g c (rows ∷ groups) = omega (
  arith,
  sum_of-concat f g c groups,
  c rows,
  c (concat groups),
  c (rows ++ concat groups),
  total-append f rows (concat groups),
)

record Added (rows : List HourRow) (c : Combined) : Type 0 where
  n_obs_eq : (add_rows rows c).n_obs ≡ c.n_obs + total (λ r. r.n_obs) rows
  n_early_eq : (add_rows rows c).n_early ≡ c.n_early + total (λ r. r.n_early) rows
  n_on_time_eq : (add_rows rows c).n_on_time ≡ c.n_on_time + total (λ r. r.n_on_time) rows
  n_late_eq : (add_rows rows c).n_late ≡ c.n_late + total (λ r. r.n_late) rows
  n_very_late_eq : (add_rows rows c).n_very_late ≡ c.n_very_late + total (λ r. r.n_very_late) rows
  n_skipped_eq : (add_rows rows c).n_skipped ≡ c.n_skipped + total (λ r. r.n_skipped) rows
  n_cancelled_eq : (add_rows rows c).n_cancelled ≡ c.n_cancelled + total (λ r. r.n_cancelled) rows

add_rows_lem : (rows : List HourRow) (c : Combined) → Added rows c
unfolding add_rows total
add_rows_lem [] c = record {
  n_obs_eq = omega arith;
  n_early_eq = omega arith;
  n_on_time_eq = omega arith;
  n_late_eq = omega arith;
  n_very_late_eq = omega arith;
  n_skipped_eq = omega arith;
  n_cancelled_eq = omega arith;
}
add_rows_lem (r ∷ rows) c =
    let ih = add_rows_lem rows (add_row r c) in
    record {
      n_obs_eq = omega (arith, ih.n_obs_eq);
      n_early_eq = omega (arith, ih.n_early_eq);
      n_on_time_eq = omega (arith, ih.n_on_time_eq);
      n_late_eq = omega (arith, ih.n_late_eq);
      n_very_late_eq = omega (arith, ih.n_very_late_eq);
      n_skipped_eq = omega (arith, ih.n_skipped_eq);
      n_cancelled_eq = omega (arith, ih.n_cancelled_eq);
    }

-- The counts that the handler reports.
pub data Reported : (Combined → ℕ) → Type 0 where
  obs : Reported (λ c. c.n_obs)
  early : Reported (λ c. c.n_early)
  on_time : Reported (λ c. c.n_on_time)
  late : Reported (λ c. c.n_late)
  very_late : Reported (λ c. c.n_very_late)
  skipped : Reported (λ c. c.n_skipped)
  cancelled : Reported (λ c. c.n_cancelled)

n_obs-counted : Counts (λ r. r.n_obs) (λ c. c.n_obs)
unfolding combine
n_obs-counted rows = omega (arith, (add_rows_lem rows nothing).n_obs_eq)

n_early-counted : Counts (λ r. r.n_early) (λ c. c.n_early)
unfolding combine
n_early-counted rows = omega (arith, (add_rows_lem rows nothing).n_early_eq)

n_on_time-counted : Counts (λ r. r.n_on_time) (λ c. c.n_on_time)
unfolding combine
n_on_time-counted rows = omega (arith, (add_rows_lem rows nothing).n_on_time_eq)

n_late-counted : Counts (λ r. r.n_late) (λ c. c.n_late)
unfolding combine
n_late-counted rows = omega (arith, (add_rows_lem rows nothing).n_late_eq)

n_very_late-counted : Counts (λ r. r.n_very_late) (λ c. c.n_very_late)
unfolding combine
n_very_late-counted rows = omega (arith, (add_rows_lem rows nothing).n_very_late_eq)

n_skipped-counted : Counts (λ r. r.n_skipped) (λ c. c.n_skipped)
unfolding combine
n_skipped-counted rows = omega (arith, (add_rows_lem rows nothing).n_skipped_eq)

n_cancelled-counted : Counts (λ r. r.n_cancelled) (λ c. c.n_cancelled)
unfolding combine
n_cancelled-counted rows = omega (arith, (add_rows_lem rows nothing).n_cancelled_eq)

counted :
    {g : Combined → ℕ}
    → Reported g
    → (groups : List (List HourRow)) → sum_of g groups ≡ g (combine (concat groups))
counted obs = sum_of-concat (λ r. r.n_obs) (λ c. c.n_obs) n_obs-counted
counted early = sum_of-concat (λ r. r.n_early) (λ c. c.n_early) n_early-counted
counted on_time = sum_of-concat (λ r. r.n_on_time) (λ c. c.n_on_time) n_on_time-counted
counted late = sum_of-concat (λ r. r.n_late) (λ c. c.n_late) n_late-counted
counted very_late = sum_of-concat (λ r. r.n_very_late) (λ c. c.n_very_late) n_very_late-counted
counted skipped = sum_of-concat (λ r. r.n_skipped) (λ c. c.n_skipped) n_skipped-counted
counted cancelled = sum_of-concat (λ r. r.n_cancelled) (λ c. c.n_cancelled) n_cancelled-counted

-- The groups of a response account for every row: for each count that the handler reports, the buckets
-- of the groups add up to the bucket of all the rows together, by hour and by day alike.
pub totals_lem :
    {g : Combined → ℕ} (count : Reported g) (loc : Zone) (by_day : Bool) (r : HourRow)
    (rows : List HourRow)
    → sum_of g (group_rows loc (r ∷ rows) by_day) ≡ g (combine (r ∷ rows))
totals_lem {g} count loc by_day r rows =
    counted count (group_rows loc (r ∷ rows) by_day)
    ∙ ap (λ x. g (combine x)) (group_rows_lem loc by_day r rows).0
