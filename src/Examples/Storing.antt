-- ===== src/Examples/Storing.antt =====
-- Tests of the retries and of the migrations.
use headway.Base.{
  ℕ, zero, suc, ℤ, pos, String, Bool, true, false, [], ◌∷◌, none, ◌⊎◌, inl, inr, All, ◌+◌, ◌<◌, ◌≡◌,
  refl, arith,
}
use headway.Base.Dict.{Dict, get, put}
use headway.Store.Retry.{Attempts, retry}
use headway.Store.Retry.Endings.{GoesOn, EndsAt, retry_lem}
use headway.Store.Migrate.{Migration, migrate, migrate_from, higher}
use headway.Store.Migrate.Refusals.{migrate_refused}
use headway.Store.Migrate.Runs.{IsRecorded, migrate-migrate}
use headway.Examples.Data.{simple_errors}

-- The third attempt succeeds.
abbrev third : ℕ → Bool ⊎ ℕ
third zero = inl true
third (suc zero) = inl true
third (suc (suc n)) = inr 5

abbrev attempts : Attempts simple_errors ℕ
attempts = record { outcome = third; cancelled = λ n. false; interrupted = λ n. false }

retry_lem_example :
    (n : ℕ) × (left : ℕ) × (n + left ≡ 3)
    × ((i : ℕ) → i < n → GoesOn simple_errors attempts i)
    × EndsAt simple_errors attempts n left (retry simple_errors attempts)
retry_lem_example = retry_lem simple_errors attempts

abbrev first : Migration
first = record { version = pos 1; name = "init"; body = ""; checksum = "aa" }

abbrev second : Migration
second = record { version = pos 2; name = "rollups"; body = ""; checksum = "bb" }

abbrev recorded : Dict ℤ String
recorded = (pos 1, "aa") ∷ []

migrate-migrate_example :
    All
      (IsRecorded (migrate (λ m. true) (first ∷ second ∷ []) recorded).recorded)
      (first ∷ second ∷ [])
    × (migrate
          (λ m. true)
          (first ∷ second ∷ [])
          (migrate (λ m. true) (first ∷ second ∷ []) recorded).recorded
        ≡ record {
          recorded = (migrate (λ m. true) (first ∷ second ∷ []) recorded).recorded;
          ran = [];
          error = none;
        })
unfolding migrate migrate_from higher get put
migrate-migrate_example =
    migrate-migrate (λ m. true) (first ∷ second ∷ []) recorded ((omega arith, tt), (tt, tt)) refl

abbrev edited : Migration
edited = record { version = pos 1; name = "init"; body = ""; checksum = "cc" }

migrate_refused_example :
    ((migrate (λ m. true) (edited ∷ second ∷ []) recorded).recorded ≡ recorded)
    × ((migrate (λ m. true) (edited ∷ second ∷ []) recorded).ran ≡ [])
unfolding migrate migrate_from higher get put
migrate_refused_example =
    migrate_refused (λ m. true) (edited ∷ second ∷ []) recorded ((omega arith, tt), (tt, tt)) refl
