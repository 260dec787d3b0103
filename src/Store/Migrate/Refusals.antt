-- ===== src/Store/Migrate/Refusals.antt =====
-- What a refused run of the migrations leaves.
use headway.Base.{
  ℤ, ltb_ℤ, ltb_ℤ→ge, ◌≤ℤ◌, ◌<ℤ◌, eqb_ℤ_iff, String, Bool, true, false, List, [], ◌∷◌, ◌++◌, Option,
  none, some, All, ◌≡◌, refl, arith, Bool-cases, inl, inr, sym, ◌∙◌,
}
use headway.Base.Eq.{int_eq}
use headway.Base.Dict.{Dict, get, put}
use headway.Store.Migrate.{Migration, MigrateError, Outcome, higher, migrate_from, migrate}
use headway.Store.Migrate.Runs.{IsAscending, Turn, turn_of}

-- The two errors that are found before a migration is applied.
abbrev pub is_refusal : Option MigrateError → Bool
is_refusal none = false
is_refusal (some (MigrateError.changed v)) = true
is_refusal (some (MigrateError.out_of_order v w)) = true
is_refusal (some (MigrateError.failed v)) = false

some-none : {v : ℤ} → ¬ (some v ≡ none)
some-none h = cc

false-true : ¬ (false ≡ true)
false-true h = cc

not_higher :
    (v : ℤ) (applied : Dict ℤ String) → higher v applied ≡ none → All (λ p. p.0 ≤ℤ v) applied
unfolding higher
not_higher v [] h = tt
not_higher v ((w, c) ∷ applied) h = elim (Bool-cases (ltb_ℤ v w)) [
  | inl e ↦ absurd (some-none (rw e at h))
  | inr e ↦ (ltb_ℤ→ge v w e, not_higher v applied (rw e at h))
]

still_not_higher :
    (v w : ℤ) (applied : Dict ℤ String)
    → v <ℤ w
    → All (λ p. p.0 ≤ℤ v) applied
    → (get w applied ≡ none) × (higher w applied ≡ none)
unfolding higher get
still_not_higher v w [] h all = (refl, refl)
still_not_higher v w ((u, c) ∷ applied) h all =
    let rest = still_not_higher v w applied h all.1 in
    (ground (arith, rest.0, all.0, eqb_ℤ_iff u w), ground (arith, rest.1, all.0))

module _ (runs : Migration → Bool) where
  -- Migrations above all that is applied are not refused.
  quiet :
      (applied : Dict ℤ String) (v : ℤ) (ms : List Migration) (recorded : Dict ℤ String)
      (ran : List ℤ)
      → All (λ p. p.0 ≤ℤ v) applied
      → All (λ n. v <ℤ n.version) ms
      → is_refusal (migrate_from runs applied ms recorded ran).error ≡ false
  unfolding migrate_from
  quiet applied v [] recorded ran below above = refl
  quiet applied v (m ∷ ms) recorded ran below above =
      let (g, h) = still_not_higher v m.version applied above.0 below in
      elim (Bool-cases (runs m)) [
        | inl r ↦
            rw (g, migrate_from, h, r)
              (quiet applied v ms (put m.version m.checksum recorded) (ran ++ m.version ∷ []) below
                above.1)
        | inr r ↦ rw (g, migrate_from, h, r)
      ]

  abbrev Untouched : Dict ℤ String → Outcome → Type 0
  Untouched recorded r = (r.recorded ≡ recorded) × (r.ran ≡ [])

  Turn-Untouched :
      (applied : Dict ℤ String) (m : Migration) (ms : List Migration) (recorded : Dict ℤ String)
      (ran : List ℤ) (r : Outcome)
      → Turn runs applied m ms recorded ran r
      → All (λ n. m.version <ℤ n.version) ms
      → is_refusal r.error ≡ true
      → (is_refusal (migrate_from runs applied ms recorded ran).error ≡ true
          → Untouched recorded (migrate_from runs applied ms recorded ran))
      → Untouched recorded r
  Turn-Untouched applied m ms recorded ran r (Turn.skipped g) above h later = later h
  Turn-Untouched applied m ms recorded ran r (Turn.done g none_higher) above h later = absurd (
      false-true (
        sym (
          quiet applied m.version ms (put m.version m.checksum recorded) (ran ++ m.version ∷ [])
            (not_higher m.version applied none_higher) above)
        ∙ h))
  Turn-Untouched applied m ms recorded ran r (Turn.refused e g) above h later = (refl, refl)
  Turn-Untouched applied m ms recorded ran r Turn.broken above h later = absurd (false-true h)

  migrate_from-Untouched :
      (applied : Dict ℤ String) (ms : List Migration) (recorded : Dict ℤ String) (ran : List ℤ)
      → IsAscending ms
      → is_refusal (migrate_from runs applied ms recorded ran).error ≡ true
      → Untouched recorded (migrate_from runs applied ms recorded ran)
  unfolding migrate_from
  migrate_from-Untouched applied [] recorded ran asc h = absurd (false-true h)
  migrate_from-Untouched applied (m ∷ ms) recorded ran asc h =
      Turn-Untouched applied m ms recorded ran (migrate_from runs applied (m ∷ ms) recorded ran)
        (turn_of runs applied m ms recorded ran) asc.0 h
        (λ k. migrate_from-Untouched applied ms recorded ran asc.1 k)

  -- A run that is refused, because an applied migration has changed or one is older than one applied, has
  -- applied and recorded nothing, if the migrations ascend.
  pub migrate_refused :
      (ms : List Migration) (recorded : Dict ℤ String)
      → IsAscending ms
      → is_refusal (migrate runs ms recorded).error ≡ true
      → ((migrate runs ms recorded).recorded ≡ recorded) × ((migrate runs ms recorded).ran ≡ [])
  unfolding migrate
  migrate_refused ms recorded asc h = migrate_from-Untouched recorded ms recorded [] asc h
