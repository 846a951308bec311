-- ===== src/Ingest/Aggregates.antt =====
-- internal/ingest/store.go: storeSessionAggregates, which folds sessions that an SDK has counted into
-- the hourly rollups. The counts are those of Go's int, of 64 bits, and a statement fails that would
-- take a column out of the range of bigint.
pub mod Balanced
pub mod Steps
use bug_han.Prelude.{
  ℕ, ◌+◌, ◌-◌, ◌%◌, ◌^◌, ◌&&◌, leb, Bool, true, false, Option, none, some, List, [], ◌∷◌, Bytes,
  codes, if◌then◌else◌, ltb, length, is_empty,
}
use bug_han.Prelude.Int.{ℤ, pos, negsuc, pos_part, neg_part, ◌+ℤ◌}
use bug_han.Ingest.Envelope.{Item}
use bug_han.Ingest.Sessions.{Rollup, RollupKey, eq_ℤ, same_key}
use bug_han.Ingest.Payloads.{
  Libraries, Result, ok, err, bad_payload, too_many_aggregates, aggregate_missing_started,
  bad_aggregate_started, aborted, Aggregate, AggregatesPayload, or_else, rfc3339_nano,
}
use bug_han.Ingest.Tables.{Tables, touch_release}

-- an integer as an int of 64 bits, which wraps around
pub wrap_int64 : ℤ → ℤ
wrap_int64 z =
    let bits = (pos_part z + (2 ^ 64 - neg_part z % 2 ^ 64)) % 2 ^ 64 in
    if ltb bits (2 ^ 63) then pos bits else negsuc (2 ^ 64 - bits - 1)

-- `a.Exited + a.Abnormal + a.Crashed + a.Errored`, before it wraps around
abbrev pub outcomes_of : Aggregate → ℤ
outcomes_of a = a.exited +ℤ a.abnormal +ℤ a.crashed +ℤ a.errored

pub total_of : Aggregate → ℤ
total_of a = wrap_int64 (outcomes_of a)

-- the inserted rollup, without sketches
pub aggregated : RollupKey → Aggregate → Rollup
aggregated k a = record {
  key = k;
  total = total_of a;
  crashed = a.crashed;
  abnormal = a.abnormal;
  errored = a.errored;
  exited = a.exited;
  distinct_did = [];
  crashed_did = [];
}

-- `ON CONFLICT … DO UPDATE SET total = session_rollups.total + EXCLUDED.total, …`
pub grown : Rollup → Rollup → Rollup
grown old new = record old {
  total = old.total +ℤ new.total;
  crashed = old.crashed +ℤ new.crashed;
  abnormal = old.abnormal +ℤ new.abnormal;
  errored = old.errored +ℤ new.errored;
  exited = old.exited +ℤ new.exited;
}

pub put_aggregate : Rollup → List Rollup → List Rollup
put_aggregate new [] = new ∷ []
put_aggregate new (r ∷ rollups) =
    let rest = put_aggregate new rollups in
    if same_key r.key new.key then grown r new ∷ rollups else r ∷ rest

-- the row that the statement leaves
pub row_after : Rollup → List Rollup → Rollup
row_after new [] = new
row_after new (r ∷ rollups) =
    let rest = row_after new rollups in if same_key r.key new.key then grown r new else rest

-- the range of bigint
pub is_bigint : ℤ → Bool
is_bigint z = ltb (pos_part z) (2 ^ 63) && leb (neg_part z) (2 ^ 63)

-- a row whose columns are in range
pub is_storable : Rollup → Bool
is_storable r =
    is_bigint r.total
    && (is_bigint r.crashed
        && (is_bigint r.abnormal && (is_bigint r.errored && is_bigint r.exited)))

abbrev pub key_for : Bytes → Bytes → Bytes → ℤ → RollupKey
key_for project_id release environment hour = record {
  project_id = project_id;
  release = release;
  environment = environment;
  hour = hour;
}

-- the tables after an aggregate that is not empty
unfoldable pub add_aggregate : Bytes → Bytes → Bytes → ℤ → ℤ → Aggregate → Tables → Tables
add_aggregate project_id release environment started hour a db = record db {
  sessions = record db.sessions {
    rollups =
        put_aggregate (aggregated (key_for project_id release environment hour) a)
          db.sessions.rollups;
  };
  releases = touch_release project_id release started db.releases;
}

-- what the statements do with it, or that they fail
pub upsert_aggregate : Bytes → Bytes → Bytes → ℤ → ℤ → Aggregate → Tables → Result Tables
upsert_aggregate project_id release environment started hour a db =
    if is_storable
      (row_after (aggregated (key_for project_id release environment hour) a) db.sessions.rollups)
    then ok (add_aggregate project_id release environment started hour a db)
    else err aborted

module _ (lib : Libraries) where
  -- the body of the loop over the aggregates
  pub fold_aggregate : Bytes → Bytes → Bytes → Aggregate → Tables → Result Tables
  fold_aggregate project_id release environment a db =
      if is_empty a.started
      then err aggregate_missing_started
      else elim (lib.parse_time rfc3339_nano a.started) [
        | none ↦ err bad_aggregate_started
        | some started ↦
            if eq_ℤ (total_of a) (pos 0)
            then ok db
            else upsert_aggregate project_id release environment started (lib.truncate_hour started)
                a db
      ]

  pub fold_aggregates : Bytes → Bytes → Bytes → List Aggregate → Tables → Result Tables
  fold_aggregates project_id release environment [] db = ok db
  fold_aggregates project_id release environment (a ∷ rest) db =
      elim (fold_aggregate project_id release environment a db) [
        | err e ↦ err e
        | ok db' ↦ fold_aggregates project_id release environment rest db'
      ]

  -- storeSessionAggregates
  pub store_session_aggregates : Item → Bytes → Tables → Result Tables
  store_session_aggregates item project_id db = elim (lib.decode_aggregates item.payload) [
    | none ↦ err bad_payload
    | some s ↦
        if ltb 100 (length s.aggregates)
        then err too_many_aggregates
        else fold_aggregates project_id s.release (or_else s.environment (codes "production"))
            s.aggregates db
  ]
