-- ===== src/Db/Migrate.antt =====
-- internal/db/migrate.go: Migrate, which applies the pending migrations in order. The schema is any
-- type, and the execution of SQL on it a parameter that may fail; schema_migrations is the list of its
-- rows. The months whose partitions are created at the end come with their texts, which the formatting
-- of times gives. Concurrent runs are left out.
pub mod Once
mod Tests
use bug_han.Prelude.{
  ℕ, zero, suc, Bool, true, false, Option, none, some, List, [], ◌∷◌, ◌++◌, Bytes, codes,
  if◌then◌else◌, ltb, leb,
}

-- migration
pub record Migration : Type 0 where
  pub version : ℕ
  pub name : Bytes
  pub sql : Bytes

pub record Database (D : Type 0) : Type 0 where
  pub schema : D
  pub applied : List (ℕ × Bytes)

-- `SELECT COALESCE(MAX(version), 0) FROM schema_migrations`
pub current_version : List (ℕ × Bytes) → ℕ
current_version [] = 0
current_version ((v, name) ∷ rows) =
    if ltb (current_version rows) v then v else current_version rows

-- a month: its name, its start and its end
pub record Month : Type 0 where
  pub name : Bytes
  pub start : Bytes
  pub end : Bytes

-- partitionedTables
abbrev pub partitioned_tables : List Bytes
partitioned_tables = codes "events_part" ∷ codes "transactions_part" ∷ codes "sessions_part" ∷ []

-- the statement of EnsurePartitions
pub partition_sql : Month → Bytes → Bytes
partition_sql m table =
    codes "CREATE TABLE IF NOT EXISTS "
    ++ (table
        ++ (codes "_"
            ++ (m.name
                ++ (codes " PARTITION OF "
                    ++ (table
                        ++ (codes " FOR VALUES FROM ('"
                            ++ (m.start ++ (codes "') TO ('" ++ (m.end ++ codes "')")))))))))

module _ {D : Type 0} (exec : Bytes → D → Option D) where
  -- the transaction of one migration, with the check inside the lock; `none` is an error, which rolls back
  pub apply : Migration → Database D → Option (Database D)
  apply m db =
      if leb m.version (current_version db.applied) then some db else elim (exec m.sql db.schema) [
        | none ↦ none
        | some schema ↦
            some (record { schema = schema; applied = db.applied ++ (m.version, m.name) ∷ [] })
      ]

  -- the loop over the migrations, with the version before it: the database after, and whether all went well
  pub apply_all : ℕ → List Migration → Database D → Database D × Bool
  apply_all current [] db = (db, true)
  apply_all current (m ∷ migs) db =
      let skip = apply_all current migs db in
      let next : Database D × Bool = elim (apply m db) [
        | none ↦ (db, false)
        | some db' ↦ apply_all current migs db'
      ] in
      if leb m.version current then skip else next

  -- one `CREATE TABLE IF NOT EXISTS … PARTITION OF`; `false` is an error
  pub ensure_partition : Month → Bytes → Database D → Database D × Bool
  ensure_partition m table db = elim (exec (partition_sql m table) db.schema) [
    | none ↦ (db, false)
    | some schema ↦ (record db { schema = schema }, true)
  ]

  -- the loop over the tables
  pub ensure_tables : Month → List Bytes → Database D → Database D × Bool
  ensure_tables m [] db = (db, true)
  ensure_tables m (table ∷ tables) db =
      let (db', went) = ensure_partition m table db in
      let rest = ensure_tables m tables db' in if went then rest else (db', false)

  -- EnsurePartitions
  pub ensure_partitions : List Month → Database D → Database D × Bool
  ensure_partitions [] db = (db, true)
  ensure_partitions (m ∷ months) db =
      let (db', went) = ensure_tables m partitioned_tables db in
      let rest = ensure_partitions months db' in if went then rest else (db', false)

  -- Migrate: `none` where the migrations cannot be loaded, or their table not be created or read; the
  -- months are this one and the next
  pub migrate : Option (List Migration) → List Month → Database D → Database D × Bool
  migrate none months db = (db, false)
  migrate (some migs) months db =
      let (db', went) = apply_all (current_version db.applied) migs db in
      let rest = ensure_partitions months db' in if went then rest else (db', false)
