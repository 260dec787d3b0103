-- ===== src/Store/Migrate.antt =====
-- internal/store/migrate.go: which migrations are applied, in which order, and when that is refused. The
-- lock, the texts of the errors and the reading of the files are left out; a transaction either records
-- its migration or changes nothing, by what the database promises.
pub mod Runs
pub mod Refusals
use headway.Base.{
  ℤ, eqb_ℤ, ltb_ℤ, leb_ℤ, String, str_eq, Bool, true, false, List, [], ◌∷◌, ◌++◌, Option, none,
  some, ◌⊎◌, inl, inr, if◌then◌else◌,
}
use headway.Base.Eq.{Eq, int_eq}
use headway.Base.Dict.{Dict, get, put, has}

pub record Migration : Type 0 where
  pub version : ℤ
  pub name : String
  pub body : String
  pub checksum : String

pub data MigrateError : Type 0 where
  changed : ℤ → MigrateError
  out_of_order : ℤ → ℤ → MigrateError
  failed : ℤ → MigrateError

-- schema_migrations, the names applied, and the error.
pub record Outcome : Type 0 where
  pub recorded : Dict ℤ String
  pub ran : List ℤ
  pub error : Option MigrateError

-- A version already applied that is higher, if there is one.
unfoldable pub higher : ℤ → Dict ℤ String → Option ℤ
higher version [] = none
higher version ((v, c) ∷ applied) =
    let rest = higher version applied in if ltb_ℤ version v then some v else rest

-- `runs` stands for whether the transaction of apply commits.
module _ (runs : Migration → Bool) where
  -- The loop of Migrate, with what was applied when it began.
  unfoldable pub migrate_from : Dict ℤ String → List Migration → Dict ℤ String → List ℤ → Outcome
  unfolding higher
  migrate_from applied [] recorded ran = record { recorded = recorded; ran = ran; error = none }
  migrate_from applied (m ∷ ms) recorded ran =
      let skipped = migrate_from applied ms recorded ran in
      let done =
        migrate_from applied ms (put m.version m.checksum recorded) (ran ++ m.version ∷ []) in
      elim (get m.version applied) [
        | some checksum ↦
            if str_eq checksum m.checksum
            then skipped
            else record { recorded = recorded; ran = []; error = some (changed m.version) }
        | none ↦ elim (higher m.version applied) [
          | some v ↦ record {
            recorded = recorded;
            ran = [];
            error = some (out_of_order m.version v);
          }
          | none ↦
              if runs m
              then done
              else record { recorded = recorded; ran = ran; error = some (failed m.version) }
        ]
      ]

  unfoldable pub migrate : List Migration → Dict ℤ String → Outcome
  unfolding migrate_from
  migrate ms recorded = migrate_from recorded ms recorded []
