-- ===== src/Ingest/Processor.antt =====
-- internal/ingest/pipeline.go: the processor, which is Process with the stores of internal/ingest/store.go
-- for one project.
pub mod Commits
pub mod Linked
pub mod Consistent
pub mod StandIns
mod Tests
use bug_han.Prelude.{ℕ, take, Option, none, some, Bytes}
use bug_han.Ingest.Envelope.{Item, Envelope}
use bug_han.Ingest.Sessions
use bug_han.Ingest.Payloads.{
  Libraries, Moment, Result, ok, err, bad_payload, bad_session, rfc3339_nano, short_hash,
}
use bug_han.Ingest.Tables.{Tables, count_up, same_item_day}
use bug_han.Ingest.Events.{store_event, store_transaction}
use bug_han.Ingest.Aggregates.{store_session_aggregates}
use bug_han.Ingest.Feedback.{store_feedback}
use bug_han.Ingest.Pipeline.{Stores, ProcessResult, process}

module _ (lib : Libraries) (project_id : Bytes) where
  -- what storeSession uses of the libraries
  pub session_libraries : Moment → Sessions.Libraries
  session_libraries m = record {
    parse_time = lib.parse_time rfc3339_nano;
    truncate_hour = lib.truncate_hour;
    parse_uuid = lib.parse_uuid;
    fresh_uuid = m.fresh_uuid;
    hash_did = short_hash lib;
    sha256 = lib.sha256;
  }

  -- storeSession on an item
  pub store_session_item : Moment → Item → Tables → Result Tables
  store_session_item m item db = elim (lib.decode_session item.payload) [
    | none ↦ err bad_payload
    | some p ↦ elim (Sessions.store_session (session_libraries m) project_id p db.sessions) [
      | Sessions.err e ↦ err (bad_session e)
      | Sessions.ok sessions ↦ ok (record db { sessions = sessions })
    ]
  ]

  -- the insertion into unknown_item_stats
  pub count_unknown_item : Moment → Bytes → Tables → Tables
  count_unknown_item m type db = record db {
    unknown_items = count_up same_item_day (project_id, (type, lib.day_of m.now)) db.unknown_items;
  }

  pub processor : Stores Tables
  processor = record {
    event = λ m env item db. store_event lib m env item project_id db;
    transaction = λ m env item db. store_transaction lib m env item project_id db;
    session = λ m item db. store_session_item m item db;
    sessions = λ m item db. store_session_aggregates lib item project_id db;
    feedback = λ m env item db. store_feedback lib m env item project_id db;
    count_unknown = λ m type db. ok (count_unknown_item m type db);
  }

  -- Process, for the project
  pub process_envelope : Envelope → (ℕ → Moment) → Tables → Tables × Result ProcessResult
  process_envelope env moment db = process processor env moment db
