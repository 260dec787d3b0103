-- ===== src/GtfsStatic/Bundle/Accepted.antt =====
-- What a bundle that is accepted has.
use headway.Base.{
  ℕ, ◌<◌, ℤ, String, Bool, true, not, ◌&&◌, ◌||◌, List, [], ◌∷◌, Option, none, some, ◌⊎◌, inl, inr,
  All, ◌==◌, ◌≡◌, refl, sym, ◌∙◌, subst, arith, Bool-cases, true_ne_false,
}
use headway.Base.Eq.{string_eq}
use headway.Base.Dict.{Dict, get, has}
use headway.GtfsStatic.Tables.{
  File, stop_times, trips, calendar, calendar_dates, file_name, required, tables,
}
use headway.GtfsStatic.Bundle.{
  BundleError, strip_bom, Values, read_file, copied, and_then, load_table, load_tables, count_of,
  checked, checked_all, load_bundle,
}

inl_ne_inr {ℓ κ μ} :
    {A : Type ℓ} {B : Type κ} {C : Type μ} {a : A} {b : B} → ◌≡◌ {A = A ⊎ B} (inl a) (inr b) → C
inl_ne_inr {A = A} {B = B} h = absurd (apart h)
  where
    apart : {a : A} {b : B} → ◌≡◌ {A = A ⊎ B} (inl a) (inr b) → ⊥
    apart h = cc

inr_injective {ℓ κ} : {A : Type ℓ} {B : Type κ} {a b : B} → ◌≡◌ {A = A ⊎ B} (inr a) (inr b) → a ≡ b
inr_injective h = cc

module _ (F : Type 0) (parse_float : String → Option F) (max_s version : ℤ)
    (csv : List ℕ → List (Option (List String))) (copies : File → Bool)
    (files : Dict String (List ℕ)) where
  abbrev read : File → List ℕ → BundleError ⊎ Values F parse_float max_s version
  read t body = read_file F parse_float max_s version t (csv (strip_bom body))

  -- A table's rows are all those of its file, and the database took them.
  abbrev pub FromFile : File × Values F parse_float max_s version → Type 0
  FromFile (t, rows) =
      (body : List ℕ) × (get (file_name t) files ≡ some body)
      × (read_file F parse_float max_s version t (csv (strip_bom body)) ≡ inr rows)
      × (copies t ≡ true)

  abbrev pub IsThere : File → Type 0
  IsThere t = required t ≡ true → has (file_name t) files ≡ true

  copied-inr :
      (t : File) (r : BundleError ⊎ Values F parse_float max_s version)
      (rows : Values F parse_float max_s version)
      → copied F parse_float max_s version csv copies t r ≡ inr rows
      → (r ≡ inr rows) × (copies t ≡ true)
  copied-inr t (inl e) rows h = inl_ne_inr h
  copied-inr t (inr x) rows h = elim (Bool-cases (copies t)) [
    | inl taken ↦ (rw taken at h, taken)
    | inr refused ↦ inl_ne_inr (rw refused at h)
  ]

  and_then-All :
      (t : File) (body : List ℕ) (r : BundleError ⊎ Values F parse_float max_s version)
      (rest : BundleError ⊎ List (File × Values F parse_float max_s version))
      (loaded : List (File × Values F parse_float max_s version))
      → get (file_name t) files ≡ some body
      → copied F parse_float max_s version csv copies t (read t body) ≡ r
      → ((l : List (File × Values F parse_float max_s version)) → rest ≡ inr l → All FromFile l)
      → and_then F parse_float max_s version csv copies t r rest ≡ inr loaded
      → All FromFile loaded
        × ((l : List (File × Values F parse_float max_s version)) × (rest ≡ inr l))
  and_then-All t body (inl e) rest loaded g k ih h = inl_ne_inr h
  and_then-All t body (inr rows) (inl e) loaded g k ih h = inl_ne_inr h
  and_then-All t body (inr rows) (inr l) loaded g k ih h =
      let (good, taken) = copied-inr t (read t body) rows k in
      (subst (All FromFile) (inr_injective h) ((body, g, good, taken), ih l refl), (l, refl))

  load_table-All :
      (t : File) (o : Option (List ℕ))
      (rest : BundleError ⊎ List (File × Values F parse_float max_s version))
      (loaded : List (File × Values F parse_float max_s version))
      → get (file_name t) files ≡ o
      → ((l : List (File × Values F parse_float max_s version)) → rest ≡ inr l → All FromFile l)
      → load_table F parse_float max_s version csv copies t o rest ≡ inr loaded
      → All FromFile loaded
        × IsThere t
        × ((l : List (File × Values F parse_float max_s version)) × (rest ≡ inr l))
  load_table-All t none rest loaded g ih h = elim (Bool-cases (required t)) [
    | inl needed ↦ inl_ne_inr (rw needed at h)
    | inr optional ↦ (
      ih loaded (rw optional at h),
      λ need. true_ne_false (sym need ∙ optional),
      (loaded, rw optional at h),
    )
  ]
  load_table-All t (some body) rest loaded g ih h =
      let (all, more) =
        and_then-All t body (copied F parse_float max_s version csv copies t (read t body)) rest
          loaded g refl ih h in
      (all, λ _. rw (g, has) refl, more)

  load_tables-All :
      (ts : List File) (loaded : List (File × Values F parse_float max_s version))
      → load_tables F parse_float max_s version csv copies files ts ≡ inr loaded
      → All FromFile loaded × All IsThere ts
  unfolding load_tables
  load_tables-All [] loaded h = (subst (All FromFile) (inr_injective h) tt, tt)
  load_tables-All (t ∷ ts) loaded h =
      let (all, there, more) =
        load_table-All t (get (file_name t) files)
          (load_tables F parse_float max_s version csv copies files ts) loaded refl
          (λ l e. (load_tables-All ts l e).0) h in
      (all, (there, (load_tables-All ts more.0 more.1).1))

  checked_lem :
      (l loaded : List (File × Values F parse_float max_s version))
      → checked F parse_float max_s version csv copies files l ≡ inr loaded
      → (l ≡ loaded)
        × ((has (file_name calendar) files || has (file_name calendar_dates) files) ≡ true)
        × (0 < count_of F parse_float max_s version csv copies (file_name trips) l)
        × (0 < count_of F parse_float max_s version csv copies (file_name stop_times) l)
  checked_lem l loaded h =
      let a = has (file_name calendar) files in
      let b = has (file_name calendar_dates) files in
      let m = count_of F parse_float max_s version csv copies (file_name trips) l in
      let n = count_of F parse_float max_s version csv copies (file_name stop_times) l in
      elim (Bool-cases (not a && not b)) [
        | inl neither ↦ inl_ne_inr (rw neither at h)
        | inr either ↦ elim (Bool-cases ((m == 0) || (n == 0))) [
          | inl empty ↦ inl_ne_inr (rw (either, empty) at h)
          | inr full ↦ (
            inr_injective (rw (either, full) at h),
            ground (arith, either),
            ground (arith, full),
            ground (arith, full),
          )
        ]
      ]

  abbrev pub Accepted : List (File × Values F parse_float max_s version) → Type 0
  Accepted loaded =
      All IsThere tables
      × ((has (file_name calendar) files || has (file_name calendar_dates) files) ≡ true)
      × (0 < count_of F parse_float max_s version csv copies (file_name trips) loaded)
      × (0 < count_of F parse_float max_s version csv copies (file_name stop_times) loaded)
      × All FromFile loaded

  -- A bundle is accepted only if every file that is required is there, one of the calendar files is, and
  -- it has trips and stop times; and then each table loaded holds the rows of all records of its file.
  pub load_bundle_lem :
      (loaded : List (File × Values F parse_float max_s version))
      → load_bundle F parse_float max_s version csv copies files ≡ inr loaded
      → Accepted loaded
  unfolding load_bundle
  load_bundle_lem loaded h =
      split (load_tables F parse_float max_s version csv copies files tables) refl h
    where
      split :
          (r : BundleError ⊎ List (File × Values F parse_float max_s version))
          → load_tables F parse_float max_s version csv copies files tables ≡ r
          → checked_all F parse_float max_s version csv copies files r ≡ inr loaded
          → Accepted loaded
      split (inl e) done h = inl_ne_inr h
      split (inr l) done h =
          let all = load_tables-All tables l done in
          let (same, calendars, some_trips, some_times) = checked_lem l loaded h in
          subst Accepted same (all.1, calendars, some_trips, some_times, all.0)
