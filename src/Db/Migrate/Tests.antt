-- ===== src/Db/Migrate/Tests.antt =====
-- Two migrations, one of them pending, over a schema that is the list of what was executed.
use bug_han.Prelude.{◌≡◌, refl, true, Option, some, List, [], ◌∷◌, Bytes, codes}
use bug_han.Db.Migrate.{
  Migration, Database, Month, current_version, apply, apply_all, ensure_partition, ensure_tables,
  ensure_partitions, migrate,
}
use bug_han.Db.Migrate.Once.{AreApplied, migrate-once}

abbrev exec : Bytes → List Bytes → Option (List Bytes)
exec sql done = some (sql ∷ done)

abbrev migrations : List Migration
migrations =
    record { version = 1; name = codes "tenancy"; sql = codes "a" }
    ∷ record { version = 2; name = codes "telemetry"; sql = codes "b" }
    ∷ []

abbrev at_one : Database (List Bytes)
at_one = record { schema = []; applied = (1, codes "tenancy") ∷ [] }

abbrev january : Month
january = record { name = codes "2026_01"; start = codes "2026-01-01"; end = codes "2026-02-01" }

went_well : (migrate exec (some migrations) (january ∷ []) at_one).1 ≡ true
unfolding migrate apply_all apply current_version ensure_partitions ensure_tables ensure_partition
went_well = refl

migrate-once_example :
    AreApplied migrations
      (current_version (migrate exec (some migrations) (january ∷ []) at_one).0.applied)
    × ((later : List Month)
        → (migrate exec
              (some migrations)
              later
              (migrate exec (some migrations) (january ∷ []) at_one).0
            ≡ ensure_partitions exec later (migrate exec (some migrations) (january ∷ []) at_one).0)
          × ((migrate exec
                (some migrations)
                later
                (migrate exec (some migrations) (january ∷ []) at_one).0).0.applied
              ≡ (migrate exec (some migrations) (january ∷ []) at_one).0.applied))
migrate-once_example = migrate-once exec migrations (january ∷ []) at_one went_well
