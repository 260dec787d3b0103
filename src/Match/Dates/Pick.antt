-- ===== src/Match/Dates/Pick.antt =====
-- Which candidate date a known trip is placed on.
use headway.Base.{
  ℤ, Bool, true, List, [], ◌∷◌, none, some, select, arith, ◌≡◌, ◌≢◌, ◌⊎◌, refl, inl, inr,
  Bool-cases, Option-cases,
}
use headway.ServiceTime.{Time, Date, Zone}
use headway.Match.Schedule.{Trip, Schedule, runs_on}
use headway.Match.Counts.{Options}
use headway.Match.Dates.{first_where, newest, near, first_or, pick_date}

-- Being one of the candidates.
abbrev pub Among : Date → List Date → Type 0
Among d [] = ⊥
Among d (e ∷ es) = (d ≡ e) ⊎ Among d es

nil_or {ℓ} : {A : Type ℓ} (xs : List A) → (xs ≡ []) ⊎ (xs ≢ [])
nil_or [] = inl refl
nil_or (x ∷ xs) = inr (λ e. cc)

newest-Among : (ds : List Date) → ds ≢ [] → Among (newest ds) ds
newest-Among [] h = absurd (h refl)
newest-Among (d ∷ ds) h = inl refl

module _ (p : Date → Bool) where
  select_sound : (ds : List Date) (d : Date) → Among d (select p ds) → Among d ds × (p d ≡ true)
  select_sound [] d m = absurd m
  select_sound (e ∷ es) d m = elim (Bool-cases (p e)) [
    | inl keep ↦ elim (rw keep at m) [
      | inl same ↦ (inl same, rw same keep)
      | inr later ↦ let (among, holds) = select_sound es d later in (inr among, holds)
    ]
    | inr dropped ↦ let (among, holds) = select_sound es d (rw dropped at m) in (inr among, holds)
  ]

  select_complete : (ds : List Date) (d : Date) → Among d ds → p d ≡ true → Among d (select p ds)
  select_complete [] d m h = absurd m
  select_complete (e ∷ es) d (inl same) h =
      let keep : p e ≡ true = rw (← same) h in rw keep (inl same)
  select_complete (e ∷ es) d (inr later) h = elim (Bool-cases (p e)) [
    | inl keep ↦ rw keep (inr (select_complete es d later h))
    | inr dropped ↦ rw dropped (select_complete es d later h)
  ]

  first_where_sound :
      (ds : List Date) (d : Date) → first_where p ds ≡ some d → Among d ds × (p d ≡ true)
  first_where_sound [] d h = cc
  first_where_sound (e ∷ es) d h = elim (Bool-cases (p e)) [
    | inl here ↦ (inl (ground arith), ground arith)
    | inr later ↦ let (among, holds) = first_where_sound es d (ground arith) in (inr among, holds)
  ]

  first_where_complete :
      (ds : List Date) (d : Date) → Among d ds → p d ≡ true → first_where p ds ≢ none
  first_where_complete [] d m h e = m
  first_where_complete (x ∷ xs) d (inl same) h e = ground arith
  first_where_complete (x ∷ xs) d (inr later) h e =
      ground (arith, first_where_complete xs d later h)

module _ (loc : Zone) (opts : Options) (s : Schedule) (t : Trip) (ref : Time) (scheduled : ℤ) where
  abbrev pub runs : Date → Bool
  runs = runs_on s t.service_id

  abbrev pub is_near : Date → Bool
  is_near d = near loc opts d t ref scheduled

  pick_cases :
      (cands : List Date)
      → ((d : Date) × (first_where is_near (select runs cands) ≡ some d)
          × (pick_date loc opts s t cands ref scheduled ≡ d))
        ⊎ ((first_where is_near (select runs cands) ≡ none)
            × ((pick_date loc opts s t cands ref scheduled
                ≡ first_or none (select runs cands) cands)))
  unfolding pick_date
  pick_cases cands = elim (Option-cases (first_where is_near (select runs cands))) [
    | inl missing ↦ inr (missing, rw missing refl)
    | inr (d, found) ↦ inl (d, found, rw found refl)
  ]

  head_sound : (ds cands : List Date) → ds ≢ [] → Among (first_or none ds cands) ds
  head_sound [] cands h = absurd (h refl)
  head_sound (d ∷ ds) cands h = inl refl

  -- Of candidates that are not empty, the date chosen is one. The service runs on it if it runs on any
  -- of them, and the date is near the update as well if it is for one on which the service runs.
  pub pick_date_lem :
      (cands : List Date)
      → cands ≢ []
      → let d = pick_date loc opts s t cands ref scheduled in
        Among d cands
        × ((e : Date) → Among e cands → runs e ≡ true → runs d ≡ true)
        × ((e : Date)
            → Among e cands
            → runs e ≡ true
            → is_near e ≡ true
            → (runs d ≡ true) × (is_near d ≡ true))
  pick_date_lem cands some_date = elim (pick_cases cands) [
    | inl (d, found, picked) ↦
        let (chosen, close) = first_where_sound is_near (select runs cands) d found in
        let (among, on) = select_sound runs cands d chosen in
        rw picked (among, (λ e m h. on), λ e m h n. (on, close))
    | inr (none_near, picked) ↦ elim (nil_or (select runs cands)) [
      | inl idle ↦
          let none_run = λ (e : Date) (m : Among e cands) (h : runs e ≡ true).
            rw idle at (select_complete runs cands e m h) in
          rw (picked, idle)
            (
              newest-Among cands some_date,
              (λ e m h. absurd (none_run e m h)),
              λ e m h n. absurd (none_run e m h),
            )
      | inr busy ↦
          let chosen = head_sound (select runs cands) cands busy in
          let (among, on) = select_sound runs cands _ chosen in
          rw picked (
            among,
            (λ e m h. on),
            λ e m h n. absurd (
                first_where_complete is_near (select runs cands) e
                  (select_complete runs cands e m h) n none_near),
          )
    ]
  ]
