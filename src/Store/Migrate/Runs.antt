-- ===== src/Store/Migrate/Runs.antt =====
-- What a run of the migrations does.
use headway.Base.{
  ℤ, eqb_ℤ_iff, ◌<ℤ◌, String, str_eq, eq_iff, Bool, List, [], ◌∷◌, ◌++◌, none, some, ◌⊎◌, inl, inr,
  All, ◌≡◌, refl, arith, Bool-cases, Option-cases, ◌∙◌, sym, ap, pos_part, neg_part,
}
use headway.Base.Eq.{int_eq, string_eq}
use headway.Base.Dict.{Dict, get, put, get-put, get-put_self, beq_refl}
use headway.Store.Migrate.{Migration, MigrateError, Outcome, higher, migrate_from, migrate}

-- load sorts the migrations by version, and refuses two with the same version.
abbrev pub IsAscending : List Migration → Type 0
IsAscending [] = Unit
IsAscending (m ∷ ms) = All (λ n. m.version <ℤ n.version) ms × IsAscending ms

abbrev pub IsRecorded : Dict ℤ String → Migration → Type 0
IsRecorded recorded m = get m.version recorded ≡ some m.checksum

lt_ne : (a b : ℤ) → a <ℤ b → ¬ (a ≡ b)
lt_ne a b h e = omega (arith, h, ap pos_part e, ap neg_part e)

none-some : {c : String} → ¬ (none ≡ some c)
none-some h = cc

module _ (runs : Migration → Bool) where
  -- How one migration goes.
  pub data Turn (applied : Dict ℤ String) (m : Migration) (ms : List Migration)
      (recorded : Dict ℤ String) (ran : List ℤ) : Outcome → Type 0 where
    skipped :
        get m.version applied ≡ some m.checksum
        → Turn applied m ms recorded ran (migrate_from runs applied ms recorded ran)
    done :
        get m.version applied ≡ none
        → higher m.version applied ≡ none
        → Turn applied m ms recorded ran (
            migrate_from runs applied ms
              (put m.version m.checksum recorded)
              (ran ++ m.version ∷ []))
    refused :
        (e : MigrateError)
        → (get m.version applied ≡ none → (v : ℤ) × (higher m.version applied ≡ some v))
        → Turn applied m ms recorded ran (record { recorded = recorded; ran = []; error = some e })
    broken :
        Turn applied m ms recorded ran
          (record { recorded = recorded; ran = ran; error = some (MigrateError.failed m.version) })

  pub turn_of :
      (applied : Dict ℤ String) (m : Migration) (ms : List Migration) (recorded : Dict ℤ String)
      (ran : List ℤ)
      → Turn applied m ms recorded ran (migrate_from runs applied (m ∷ ms) recorded ran)
  unfolding migrate_from
  turn_of applied m ms recorded ran = elim (Option-cases (get m.version applied)) [
    | inl g ↦ elim (Option-cases (higher m.version applied)) [
      | inl h ↦ elim (Bool-cases (runs m)) [
        | inl r ↦ rw (g, migrate_from, h, r) (done g h)
        | inr r ↦ rw (g, migrate_from, h, r) broken
      ]
      | inr (v, h) ↦
          rw (g, migrate_from, h) (refused (MigrateError.out_of_order m.version v) (λ k. (v, h)))
    ]
    | inr (c, g) ↦ elim (Bool-cases (str_eq c m.checksum)) [
      | inl e ↦ rw (g, migrate_from, e) (skipped (g ∙ ap some ((eq_iff c m.checksum).0 e)))
      | inr e ↦ rw (g, migrate_from, e) (refused (MigrateError.changed m.version) (λ k. cc))
    ]
  ]

  -- What is recorded stays, where no migration to come has its version or it was applied before.
  abbrev Stays : Dict ℤ String → List Migration → ℤ → String → Type 0
  Stays applied ms v c = All (λ n. v <ℤ n.version) ms ⊎ (get v applied ≡ some c)

  put_other :
      (v w : ℤ) (c d : String) (recorded : Dict ℤ String)
      → ¬ (w ≡ v)
      → get v recorded ≡ some c
      → get v (put w d recorded) ≡ some c
  put_other v w c d recorded ne h = ground (arith, get-put w v d recorded, eqb_ℤ_iff w v, h)

  other_version :
      (applied : Dict ℤ String) (m : Migration) (ms : List Migration) (v : ℤ) (c : String)
      → get m.version applied ≡ none
      → Stays applied (m ∷ ms) v c
      → ¬ (m.version ≡ v)
  other_version applied m ms v c none_ (inl all) e = lt_ne v m.version all.0 (sym e)
  other_version applied m ms v c none_ (inr some_) e =
      none-some (sym none_ ∙ ap (λ w. get w applied) e ∙ some_)

  Stays-later :
      (applied : Dict ℤ String) (m : Migration) (ms : List Migration) (v : ℤ) (c : String)
      → Stays applied (m ∷ ms) v c
      → Stays applied ms v c
  Stays-later applied m ms v c (inl all) = inl all.1
  Stays-later applied m ms v c (inr h) = inr h

  kept_turn :
      (applied : Dict ℤ String) (m : Migration) (ms : List Migration) (recorded : Dict ℤ String)
      (ran : List ℤ) (r : Outcome) (v : ℤ) (c : String)
      → Turn applied m ms recorded ran r
      → Stays applied (m ∷ ms) v c
      → get v recorded ≡ some c
      → ((recorded' : Dict ℤ String) (ran' : List ℤ)
          → get v recorded' ≡ some c
          → get v (migrate_from runs applied ms recorded' ran').recorded ≡ some c)
      → get v r.recorded ≡ some c
  kept_turn applied m ms recorded ran r v c (skipped g) stays h later = later recorded ran h
  kept_turn applied m ms recorded ran r v c (done g none_) stays h later =
      later (put m.version m.checksum recorded) (ran ++ m.version ∷ [])
        (put_other v m.version c m.checksum recorded (other_version applied m ms v c g stays) h)
  kept_turn applied m ms recorded ran r v c (refused e g) stays h later = h
  kept_turn applied m ms recorded ran r v c broken stays h later = h

  kept :
      (applied : Dict ℤ String) (ms : List Migration) (recorded : Dict ℤ String) (ran : List ℤ)
      (v : ℤ) (c : String)
      → Stays applied ms v c
      → get v recorded ≡ some c
      → get v (migrate_from runs applied ms recorded ran).recorded ≡ some c
  unfolding migrate_from
  kept applied [] recorded ran v c stays h = h
  kept applied (m ∷ ms) recorded ran v c stays h =
      kept_turn applied m ms recorded ran (migrate_from runs applied (m ∷ ms) recorded ran) v c
        (turn_of applied m ms recorded ran) stays h
        (λ recorded' ran' h'.
          kept applied ms recorded' ran' v c (Stays-later applied m ms v c stays) h')

  abbrev Agrees : Dict ℤ String → Dict ℤ String → Type 0
  Agrees applied recorded = (v : ℤ) (c : String) → get v applied ≡ some c → get v recorded ≡ some c

  put-Agrees :
      (applied recorded : Dict ℤ String) (w : ℤ) (d : String)
      → get w applied ≡ none
      → Agrees applied recorded
      → Agrees applied (put w d recorded)
  put-Agrees applied recorded w d g agrees v c h =
      put_other v w c d recorded (λ e. none-some (sym g ∙ ap (λ x. get x applied) e ∙ h))
        (agrees v c h)

  IsRecorded-turn :
      (applied : Dict ℤ String) (m : Migration) (ms : List Migration) (recorded : Dict ℤ String)
      (ran : List ℤ) (r : Outcome)
      → Turn applied m ms recorded ran r
      → IsAscending (m ∷ ms)
      → Agrees applied recorded
      → r.error ≡ none
      → ((recorded' : Dict ℤ String) (ran' : List ℤ)
          → Agrees applied recorded'
          → (migrate_from runs applied ms recorded' ran').error ≡ none
          → All (IsRecorded (migrate_from runs applied ms recorded' ran').recorded) ms)
      → All (IsRecorded r.recorded) (m ∷ ms)
  IsRecorded-turn applied m ms recorded ran r (skipped g) asc agrees ok later = (
    kept applied ms recorded ran m.version m.checksum (inr g) (agrees m.version m.checksum g),
    later recorded ran agrees ok,
  )
  IsRecorded-turn applied m ms recorded ran r (done g h) asc agrees ok later =
      let next = put m.version m.checksum recorded in
      (
        kept applied ms next (ran ++ m.version ∷ []) m.version m.checksum (inl asc.0)
            (get-put_self m.version m.checksum recorded),
        later next (ran ++ m.version ∷ [])
            (put-Agrees applied recorded m.version m.checksum g agrees) ok,
      )
  IsRecorded-turn applied m ms recorded ran r (refused e g) asc agrees ok later = cc
  IsRecorded-turn applied m ms recorded ran r broken asc agrees ok later = cc

  IsRecorded-from :
      (applied : Dict ℤ String) (ms : List Migration) (recorded : Dict ℤ String) (ran : List ℤ)
      → IsAscending ms
      → Agrees applied recorded
      → (migrate_from runs applied ms recorded ran).error ≡ none
      → All (IsRecorded (migrate_from runs applied ms recorded ran).recorded) ms
  unfolding migrate_from
  IsRecorded-from applied [] recorded ran asc agrees ok = tt
  IsRecorded-from applied (m ∷ ms) recorded ran asc agrees ok =
      IsRecorded-turn applied m ms recorded ran (migrate_from runs applied (m ∷ ms) recorded ran)
        (turn_of applied m ms recorded ran) asc agrees ok
        (λ recorded' ran' a o. IsRecorded-from applied ms recorded' ran' asc.1 a o)

  All-IsRecorded :
      (applied : Dict ℤ String) (ms : List Migration) (recorded : Dict ℤ String) (ran : List ℤ)
      → All (IsRecorded applied) ms
      → migrate_from runs applied ms recorded ran
        ≡ record { recorded = recorded; ran = ran; error = none }
  unfolding migrate_from
  All-IsRecorded applied [] recorded ran h = refl
  All-IsRecorded applied (m ∷ ms) recorded ran h =
      rw (h.0, migrate_from, beq_refl m.checksum) (All-IsRecorded applied ms recorded ran h.1)

  -- If the versions of the migrations ascend, without two alike: a run that ends without an error has
  -- recorded every migration with its checksum, and the same migrations run again apply nothing and
  -- change nothing.
  pub migrate-migrate :
      (ms : List Migration) (recorded : Dict ℤ String)
      → IsAscending ms
      → (migrate runs ms recorded).error ≡ none
      → All (IsRecorded (migrate runs ms recorded).recorded) ms
        × (migrate runs ms (migrate runs ms recorded).recorded
            ≡ record { recorded = (migrate runs ms recorded).recorded; ran = []; error = none })
  unfolding migrate
  migrate-migrate ms recorded asc ok =
      let all = IsRecorded-from recorded ms recorded [] asc (λ v c h. h) ok in
      (
        all,
        All-IsRecorded (migrate runs ms recorded).recorded ms (migrate runs ms recorded).recorded []
            all,
      )
