-- ===== src/GtfsStatic/Bundle/Records.antt =====
-- The rows that COPY takes from a table's records, and the record that an error names.
use headway.Base.{
  ℕ, suc, ℤ, String, List, [], ◌∷◌, Option, none, some, ◌⊎◌, inl, inr, ◌↔◌, ◌≡◌, refl, sym, ap, ◌∙◌,
  subst,
}
use headway.Base.Dict.{Dict}
use headway.GtfsStatic.Row.{RowError, Parsed, ok, wrong}
use headway.GtfsStatic.Tables.{Value, number, File, convert}
use headway.GtfsStatic.Bundle.{BundleError, bad_record, Values, prepend, next_row, read_rows}

module _ (F : Type 0) (parse_float : String → Option F) (max_s version : ℤ) (t : File)
    (idx : Dict String ℕ) where
  abbrev pub converted : List String → Parsed (List (Value F))
  converted rec = convert F parse_float max_s t (record { rec = rec; idx = idx })

  -- Each record in its place, after the version.
  abbrev pub IsRows : List (Option (List String)) → List (List (Value F)) → Type 0
  IsRows [] [] = Unit
  IsRows [] (v ∷ rows) = ⊥
  IsRows (none ∷ recs) rows = ⊥
  IsRows (some rec ∷ recs) [] = ⊥
  IsRows (some rec ∷ recs) (v ∷ rows) =
      ((vals : List (Value F)) × (converted rec ≡ ok vals) × (v ≡ number version ∷ vals))
      × IsRows recs rows

  -- The first record that is not CSV or not converted, with its line; `line` is that of the record before.
  pub data FirstBad : ℕ → List (Option (List String)) → BundleError → Type 0 where
    not_csv :
        (line : ℕ) (recs : List (Option (List String)))
        → FirstBad line (none ∷ recs) (bad_record t (suc line) none)
    not_converted :
        (line : ℕ) (rec : List String) (recs : List (Option (List String))) (x : RowError)
        → converted rec ≡ wrong x
        → FirstBad line (some rec ∷ recs) (bad_record t (suc line) (some x))
    further :
        (line : ℕ) (rec : List String) (recs : List (Option (List String))) (vals : List (Value F))
        (e : BundleError)
        → converted rec ≡ ok vals
        → FirstBad (suc line) recs e
        → FirstBad line (some rec ∷ recs) e

  -- What was read, as one of the two.
  Outcome :
      ℕ → List (Option (List String)) → BundleError ⊎ Values F parse_float max_s version → Type 0
  Outcome line recs (inl e) = FirstBad line recs e
  Outcome line recs (inr rows) = IsRows recs rows

  Outcome-prepend :
      (line : ℕ) (rec : List String) (recs : List (Option (List String))) (vals : List (Value F))
      (rest : BundleError ⊎ Values F parse_float max_s version)
      → converted rec ≡ ok vals
      → Outcome (suc line) recs rest
      → Outcome line (some rec ∷ recs) (prepend F parse_float max_s version vals rest)
  unfolding Outcome
  Outcome-prepend line rec recs vals (inl e) h o = further line rec recs vals e h o
  Outcome-prepend line rec recs vals (inr rows) h o = ((vals, h, refl), o)

  next_row-Outcome :
      (line : ℕ) (rec : List String) (recs : List (Option (List String)))
      (r : Parsed (List (Value F))) (rest : BundleError ⊎ Values F parse_float max_s version)
      → converted rec ≡ r
      → Outcome (suc line) recs rest
      → Outcome line (some rec ∷ recs) (next_row F parse_float max_s version t line r rest)
  unfolding Outcome
  next_row-Outcome line rec recs (ok vals) rest h o = Outcome-prepend line rec recs vals rest h o
  next_row-Outcome line rec recs (wrong x) rest h o = not_converted line rec recs x h

  read_rows-Outcome :
      (line : ℕ) (recs : List (Option (List String)))
      → Outcome line recs (read_rows F parse_float max_s version t idx line recs)
  unfolding read_rows Outcome
  read_rows-Outcome line [] = tt
  read_rows-Outcome line (none ∷ recs) = not_csv line recs
  read_rows-Outcome line (some rec ∷ recs) =
      next_row-Outcome line rec recs (converted rec)
        (read_rows F parse_float max_s version t idx (suc line) recs) refl
        (read_rows-Outcome (suc line) recs)

  FirstBad-read_rows :
      (line : ℕ) (recs : List (Option (List String))) (e : BundleError)
      → FirstBad line recs e
      → read_rows F parse_float max_s version t idx line recs ≡ inl e
  unfolding read_rows
  FirstBad-read_rows _ _ _ (not_csv line recs) = refl
  FirstBad-read_rows _ _ _ (not_converted line rec recs x h) =
      ap
        (λ r.
          next_row F parse_float max_s version t line r
            (read_rows F parse_float max_s version t idx (suc line) recs))
        h
  FirstBad-read_rows _ _ _ (further line rec recs vals e h b) =
      ap
        (λ r.
          next_row F parse_float max_s version t line r
            (read_rows F parse_float max_s version t idx (suc line) recs))
        h
      ∙ ap (prepend F parse_float max_s version vals) (FirstBad-read_rows (suc line) recs e b)

  IsRows-read_rows :
      (line : ℕ) (recs : List (Option (List String))) (rows : List (List (Value F)))
      → IsRows recs rows
      → read_rows F parse_float max_s version t idx line recs ≡ inr rows
  unfolding read_rows
  IsRows-read_rows line [] [] h = refl
  IsRows-read_rows line [] (v ∷ rows) h = absurd h
  IsRows-read_rows line (none ∷ recs) rows h = absurd h
  IsRows-read_rows line (some rec ∷ recs) [] h = absurd h
  IsRows-read_rows line (some rec ∷ recs) (v ∷ rows) h =
      let (vals, good, at') = h.0 in
      ap
        (λ r.
          next_row F parse_float max_s version t line r
            (read_rows F parse_float max_s version t idx (suc line) recs))
        good
      ∙ ap (prepend F parse_float max_s version vals) (IsRows-read_rows (suc line) recs rows h.1)
      ∙ ap (λ x. inr (x ∷ rows)) (sym at')

  -- The rows that COPY takes are exactly those of all the records, each converted and in its place,
  -- after the version; or the load fails, and the error names the first record that is not CSV or not
  -- converted, its line and why.
  pub read_rows_lem :
      (line : ℕ) (recs : List (Option (List String)))
      → ((rows : List (List (Value F)))
          → (read_rows F parse_float max_s version t idx line recs ≡ inr rows) ↔ IsRows recs rows)
        × ((e : BundleError)
            → (read_rows F parse_float max_s version t idx line recs ≡ inl e)
              ↔ FirstBad line recs e)
  unfolding Outcome
  read_rows_lem line recs = (
    λ rows. (
      (λ h. subst (Outcome line recs) h (read_rows-Outcome line recs)),
      IsRows-read_rows line recs rows,
    ),
    λ e. (
      (λ h. subst (Outcome line recs) h (read_rows-Outcome line recs)),
      FirstBad-read_rows line recs e,
    ),
  )
