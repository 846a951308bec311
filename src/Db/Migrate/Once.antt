-- ===== src/Db/Migrate/Once.antt =====
-- Migrating again changes nothing.
use bug_han.Prelude.{
  ℕ, ◌≤◌, ◌≡◌, refl, sym, subst, ap, ◌∙◌, Bool, true, false, Option, none, some, List, [], ◌∷◌,
  ◌++◌, Bytes, arith, leb, All, Bool-cases, Option-cases, inl, inr,
}
use bug_han.Db.Migrate.{
  Migration, Database, Month, partitioned_tables, partition_sql, current_version, apply, apply_all,
  ensure_partition, ensure_tables, ensure_partitions, migrate,
}

append-current_version :
    (rows : List (ℕ × Bytes)) (v : ℕ) (name : Bytes)
    → (current_version rows ≤ current_version (rows ++ (v, name) ∷ []))
      × (v ≤ current_version (rows ++ (v, name) ∷ []))
unfolding current_version
append-current_version [] v name = (omega arith, ground arith)
append-current_version ((w, n) ∷ rows) v name = (
  ground (arith, append-current_version rows v name),
  ground (arith, append-current_version rows v name),
)

-- the versions of the migrations are at most that of the database
abbrev pub AreApplied : List Migration → ℕ → Type 0
AreApplied migs v = All (λ m. m.version ≤ v) migs

module _ {D : Type 0} (exec : Bytes → D → Option D) where
  apply-later :
      (m : Migration) (db db' : Database D)
      → apply exec m db ≡ some db'
      → (current_version db.applied ≤ current_version db'.applied)
        × (m.version ≤ current_version db'.applied)
  unfolding apply
  apply-later m db db' h = elim (Bool-cases (leb m.version (current_version db.applied))) [
    | inl done ↦ let same : db ≡ db' = cc (rw done at h) in rw (← same) (omega arith, ground arith)
    | inr pending ↦ elim (Option-cases (exec m.sql db.schema)) [
      | inl failed ↦ absurd (cc (rw (pending, failed) at h))
      | inr (s, went) ↦
          let same : (record { schema = s; applied = db.applied ++ (m.version, m.name) ∷ [] })
              ≡ db' =
            cc (rw (pending, went) at h) in
          rw (← same) (append-current_version db.applied m.version m.name)
    ]
  ]

  apply_all-skip :
      (current : ℕ) (m : Migration) (migs : List Migration) (db : Database D)
      → leb m.version current ≡ true
      → apply_all exec current (m ∷ migs) db ≡ apply_all exec current migs db
  unfolding apply_all
  apply_all-skip current m migs db skip = rw skip refl

  apply_all-next :
      (current : ℕ) (m : Migration) (migs : List Migration) (db db' : Database D)
      → leb m.version current ≡ false
      → apply exec m db ≡ some db'
      → apply_all exec current (m ∷ migs) db ≡ apply_all exec current migs db'
  unfolding apply_all
  apply_all-next current m migs db db' next went = rw (next, went) refl

  apply_all-fail :
      (current : ℕ) (m : Migration) (migs : List Migration) (db : Database D)
      → leb m.version current ≡ false
      → apply exec m db ≡ none
      → apply_all exec current (m ∷ migs) db ≡ (db, false)
  unfolding apply_all
  apply_all-fail current m migs db next failed = rw (next, failed) refl

  -- the database moved on from a version, and has the migrations
  abbrev Reaches : ℕ → List Migration → Database D × Bool → Type 0
  Reaches v migs (db, ok) =
      ok ≡ true → (v ≤ current_version db.applied) × AreApplied migs (current_version db.applied)

  more-Reaches :
      (v w : ℕ) (m : Migration) (migs : List Migration) (r : Database D × Bool)
      → v ≤ w
      → m.version ≤ w
      → Reaches w migs r
      → Reaches v (m ∷ migs) r
  more-Reaches v w m migs (db, ok) le here h e =
      let (more, rest) = h e in (omega arith, (omega arith, rest))

  apply_all-Reaches :
      (current : ℕ) (migs : List Migration) (db : Database D)
      → current ≤ current_version db.applied
      → Reaches (current_version db.applied) migs (apply_all exec current migs db)
  apply_all-Reaches current [] db le = unfold apply_all in λ e. (omega arith, tt)
  apply_all-Reaches current (m ∷ migs) db le = elim (Bool-cases (leb m.version current)) [
    | inl skip ↦
        subst (Reaches (current_version db.applied) (m ∷ migs))
          (sym (apply_all-skip current m migs db skip))
          (more-Reaches _ (current_version db.applied) m migs (apply_all exec current migs db)
            (omega arith) (ground arith) (apply_all-Reaches current migs db le))
    | inr next ↦ elim (Option-cases (apply exec m db)) [
      | inl failed ↦
          subst (Reaches (current_version db.applied) (m ∷ migs))
            (sym (apply_all-fail current m migs db next failed)) (λ e. absurd (cc))
      | inr (db', went) ↦
          let (up, in_db) = apply-later m db db' went in
          subst (Reaches (current_version db.applied) (m ∷ migs))
            (sym (apply_all-next current m migs db db' next went))
            (more-Reaches _ (current_version db'.applied) m migs (apply_all exec current migs db')
              up in_db (apply_all-Reaches current migs db' (omega arith)))
    ]
  ]

  applied-apply_all :
      (current : ℕ) (migs : List Migration) (db : Database D)
      → AreApplied migs current
      → apply_all exec current migs db ≡ (db, true)
  unfolding apply_all
  applied-apply_all current [] db h = refl
  applied-apply_all current (m ∷ migs) db (le, h) =
      let skip : leb m.version current ≡ true = ground arith in
      rw skip (applied-apply_all current migs db h)

  -- creating partitions records no migration
  abbrev Records : Database D → Database D × Bool → Type 0
  Records db r = r.0.applied ≡ db.applied

  ensure_partition-Records :
      (m : Month) (table : Bytes) (db : Database D) → Records db (ensure_partition exec m table db)
  unfolding ensure_partition
  ensure_partition-Records m table db =
      elim (Option-cases (exec (partition_sql m table) db.schema)) [
        | inl failed ↦ rw (failed, ensure_partition) refl
        | inr (schema, went) ↦ rw (went, ensure_partition) refl
      ]

  ensure_tables-Records :
      (m : Month) (tables : List Bytes) (db : Database D)
      → Records db (ensure_tables exec m tables db)
  unfolding ensure_tables
  ensure_tables-Records m [] db = refl
  ensure_tables-Records m (table ∷ tables) db =
      let one = ensure_partition-Records m table db in
      elim (Bool-cases (ensure_partition exec m table db).1) [
        | inl went ↦
            rw went (ensure_tables-Records m tables (ensure_partition exec m table db).0 ∙ one)
        | inr failed ↦ rw failed one
      ]

  ensure_partitions-Records :
      (months : List Month) (db : Database D) → Records db (ensure_partitions exec months db)
  unfolding ensure_partitions
  ensure_partitions-Records [] db = refl
  ensure_partitions-Records (m ∷ months) db =
      let one = ensure_tables-Records m partitioned_tables db in
      elim (Bool-cases (ensure_tables exec m partitioned_tables db).1) [
        | inl went ↦
            rw went (
              ensure_partitions-Records months (ensure_tables exec m partitioned_tables db).0 ∙ one)
        | inr failed ↦ rw failed one
      ]

  migrate-well :
      (migs : List Migration) (months : List Month) (db : Database D)
      → (migrate exec (some migs) months db).1 ≡ true
      → ((apply_all exec (current_version db.applied) migs db).1 ≡ true)
        × (migrate exec (some migs) months db
            ≡ ensure_partitions exec months (apply_all exec (current_version db.applied) migs db).0)
  unfolding migrate
  migrate-well migs months db h =
      elim (Bool-cases (apply_all exec (current_version db.applied) migs db).1) [
        | inl went ↦ (went, rw went refl)
        | inr failed ↦ absurd (cc (rw failed at h))
      ]

  migrated :
      (migs : List Migration) (months : List Month) (db : Database D)
      → AreApplied migs (current_version db.applied)
      → migrate exec (some migs) months db ≡ ensure_partitions exec months db
  unfolding migrate
  migrated migs months db h = rw (applied-apply_all (current_version db.applied) migs db h) refl

  -- Where Migrate went well, the database is at the version of each migration at least; and migrating
  -- again, in whatever months, executes no migration: all that it does is to create the partitions of
  -- those months, and the rows of schema_migrations stay the same, even where that fails.
  pub migrate-once :
      (migs : List Migration) (months : List Month) (db : Database D)
      → (migrate exec (some migs) months db).1 ≡ true
      → AreApplied migs (current_version (migrate exec (some migs) months db).0.applied)
        × ((later : List Month)
            → (migrate exec (some migs) later (migrate exec (some migs) months db).0
                ≡ ensure_partitions exec later (migrate exec (some migs) months db).0)
              × ((migrate exec (some migs) later (migrate exec (some migs) months db).0).0.applied
                  ≡ (migrate exec (some migs) months db).0.applied))
  migrate-once migs months db h =
      let before = (apply_all exec (current_version db.applied) migs db).0 in
      let after = (migrate exec (some migs) months db).0 in
      let (went, same) = migrate-well migs months db h in
      let (more, reached) =
        apply_all-Reaches (current_version db.applied) migs db (omega arith) went in
      let recorded : after.applied ≡ before.applied =
        ap (λ r. r.0.applied) same ∙ ensure_partitions-Records months before in
      let done : AreApplied migs (current_version after.applied) =
        subst (λ a. AreApplied migs (current_version a)) (sym recorded) reached in
      (
        done,
        λ later. (
          migrated migs later after done,
          ap (λ r. r.0.applied) (migrated migs later after done)
              ∙ ensure_partitions-Records later after,
        ),
      )
