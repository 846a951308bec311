-- ===== src/Ingest/Aggregates/Steps.antt =====
-- An invariant that one aggregate keeps is kept by a `sessions` item.
use bug_han.Prelude.{
  Option, none, some, List, [], ◌∷◌, Bytes, if◌then◌else◌, ltb, length, codes, is_empty, Bool-cases,
  inl, inr, ◌≡◌, refl, All,
}
use bug_han.Prelude.Int.{ℤ, pos}
use bug_han.Ingest.Envelope.{Item}
use bug_han.Ingest.Sessions.{eq_ℤ}
use bug_han.Ingest.Payloads.{
  Libraries, Result, ok, err, Failure, Aggregate, AggregatesPayload, rfc3339_nano, or_else,
}
use bug_han.Ingest.Tables.{Tables}
use bug_han.Ingest.Pipeline.Invariants.{Keeps}
use bug_han.Ingest.Aggregates.{
  total_of, aggregated, row_after, is_storable, key_for, add_aggregate, upsert_aggregate,
  fold_aggregate, fold_aggregates, store_session_aggregates,
}

module _ (lib : Libraries) (project_id : Bytes) (P : Tables → Type 0) (Q : Aggregate → Type 0)
    (adds : (release environment : Bytes) (started hour : ℤ) (a : Aggregate) (db : Tables)
      → Q a
      → P db
      → P (add_aggregate project_id release environment started hour a db)) where
  upsert_aggregate-Keeps :
      (release environment : Bytes) (started hour : ℤ) (a : Aggregate) (db : Tables)
      → Q a
      → P db
      → Keeps P (upsert_aggregate project_id release environment started hour a db)
  unfolding upsert_aggregate
  upsert_aggregate-Keeps release environment started hour a db q h =
      elim (Bool-cases (
        is_storable (
          row_after (aggregated (key_for project_id release environment hour) a)
            db.sessions.rollups))) [
              | inl y ↦ rw y (adds release environment started hour a db q h)
              | inr n ↦ rw n tt
            ]

  started-Keeps :
      (release environment : Bytes) (o : Option ℤ) (a : Aggregate) (db : Tables) (f : Failure)
      → Q a
      → P db
      → Keeps P (elim o [
        | none ↦ err f
        | some started ↦
            if eq_ℤ (total_of a) (pos 0)
            then ok db
            else upsert_aggregate project_id release environment started
                (lib.truncate_hour started)
                a
                db
      ])
  started-Keeps release environment none a db f q h = tt
  started-Keeps release environment (some started) a db f q h =
      elim (Bool-cases (eq_ℤ (total_of a) (pos 0))) [
        | inl z ↦ rw z h
        | inr z ↦ rw z (upsert_aggregate-Keeps release environment started _ a db q h)
      ]

  fold_aggregate-Keeps :
      (release environment : Bytes) (a : Aggregate) (db : Tables)
      → Q a
      → P db
      → Keeps P (fold_aggregate lib project_id release environment a db)
  unfolding fold_aggregate
  fold_aggregate-Keeps release environment a db q h = elim (Bool-cases (is_empty a.started)) [
    | inl e ↦ rw e tt
    | inr e ↦
        rw e (started-Keeps release environment (lib.parse_time rfc3339_nano a.started) a db _ q h)
  ]

  then-Keeps :
      (r : Result Tables) (g : Tables → Result Tables)
      → Keeps P r
      → ((db : Tables) → P db → Keeps P (g db))
      → Keeps P (elim r [ err e ↦ err e | ok db ↦ g db ])
  then-Keeps (err e) g h k = tt
  then-Keeps (ok db) g h k = k db h

  fold_aggregates-Keeps :
      (release environment : Bytes) (aggregates : List Aggregate) (db : Tables)
      → All Q aggregates
      → P db
      → Keeps P (fold_aggregates lib project_id release environment aggregates db)
  unfolding fold_aggregates
  fold_aggregates-Keeps release environment [] db qs h = h
  fold_aggregates-Keeps release environment (a ∷ rest) db (q, qs) h =
      then-Keeps (fold_aggregate lib project_id release environment a db)
        (fold_aggregates lib project_id release environment rest)
        (fold_aggregate-Keeps release environment a db q h)
        (λ db' h'. fold_aggregates-Keeps release environment rest db' qs h')

  decodes-Keeps :
      (o : Option AggregatesPayload) (db : Tables) (f g : Failure)
      → ((s : AggregatesPayload) → o ≡ some s → All Q s.aggregates)
      → P db
      → Keeps P (elim o [
        | none ↦ err f
        | some s ↦
            if ltb 100 (length s.aggregates)
            then err g
            else fold_aggregates lib project_id s.release
                (or_else s.environment (codes "production"))
                s.aggregates
                db
      ])
  decodes-Keeps none db f g qs h = tt
  decodes-Keeps (some s) db f g qs h = elim (Bool-cases (ltb 100 (length s.aggregates))) [
    | inl e ↦ rw e tt
    | inr e ↦ rw e (fold_aggregates-Keeps s.release _ s.aggregates db (qs s refl) h)
  ]

  pub store_session_aggregates-Keeps :
      (item : Item) (db : Tables)
      → ((s : AggregatesPayload) → lib.decode_aggregates item.payload ≡ some s → All Q s.aggregates)
      → P db
      → Keeps P (store_session_aggregates lib item project_id db)
  unfolding store_session_aggregates
  store_session_aggregates-Keeps item db qs h =
      decodes-Keeps (lib.decode_aggregates item.payload) db _ _ qs h
