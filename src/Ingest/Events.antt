-- ===== src/Ingest/Events.antt =====
-- internal/ingest/store.go: storeEvent and storeTransaction.
pub mod Steps
pub mod Transactions
pub mod Redelivery
pub mod Reconcile
use bug_han.Prelude.{
  ℕ, Bool, true, false, ◌&&◌, ◌||◌, Option, none, some, List, [], ◌∷◌, Bytes, codes, if◌then◌else◌,
  eqb, is_empty,
}
use bug_han.Prelude.Int.{ℤ, ltb_ℤ}
use bug_han.Ingest.Envelope.{Item, Envelope}
use bug_han.Ingest.Issues.{Key, Event, Upserted, upsert_issue}
use bug_han.Ingest.Sessions.{eq_ℤ}
use bug_han.Ingest.Grouping.{NormalizedEvent, normalize_event}
use bug_han.Ingest.Payloads.{
  Libraries, Moment, Result, ok, err, bad_payload, bad_timestamp, bad_event,
  missing_start_timestamp, ends_before_start, aborted, EventPayload, TransactionPayload, or_else,
  event_id_from, user_hash, parse_tags, trace_id_of, timestamp_of, parse_timestamp,
}
use bug_han.Ingest.Tables.{
  EventRow, TransactionRow, FeedbackRow, Tables, count_up, same_issue_hour, same_project_hour,
  touch_release,
}
use bug_han.Ingest.Feedback.{backfill_feedback}
use bug_han.Ingest.Pipeline.{AlertSignal, Stored}

-- what storeEvent inserts, and the key of its issue
pub record NewEvent : Type 0 where
  pub row : EventRow
  pub key : Key

abbrev pub is_event : Bytes → ℤ → EventRow → Bool
is_event id ts e = eqb e.id id && eq_ℤ e.timestamp ts

-- the conflict on (id, timestamp) of events_part
pub has_event : Bytes → ℤ → List EventRow → Bool
has_event id ts [] = false
has_event id ts (e ∷ events) = is_event id ts e || has_event id ts events

-- `UPDATE events_part SET issue_id = $2 WHERE id = $1 AND timestamp = $3`
pub link_event : Bytes → ℤ → Key → List EventRow → List EventRow
link_event id ts k [] = []
link_event id ts k (e ∷ events) =
    (if is_event id ts e then record e { issue = some k } else e) ∷ link_event id ts k events

-- the same conflict of transactions_part
pub has_transaction : Bytes → ℤ → List TransactionRow → Bool
has_transaction id ts [] = false
has_transaction id ts (t ∷ rows) =
    (eqb t.id id && eq_ℤ t.timestamp ts) || has_transaction id ts rows

-- what upsertIssue is given
pub event_of : NewEvent → Event
event_of e = record {
  key = e.key;
  title = e.row.title;
  culprit = e.row.culprit;
  level = e.row.level;
  user_hash = e.row.user_hash;
  timestamp = e.row.timestamp;
}

-- the signal of a stored event
pub signal_of : NewEvent → Upserted → AlertSignal
signal_of e u = record {
  issue = e.key;
  event_id = e.row.id;
  is_new = u.is_new;
  is_regression = u.is_regression;
  environment = e.row.environment;
  release = e.row.release;
  level = e.row.level;
}

module _ (lib : Libraries) where
  -- the columns of an event
  pub event_row : Bytes → Bytes → Bytes → ℤ → EventPayload → NormalizedEvent → EventRow
  event_row project_id payload id ts p norm = record {
    id = id;
    project_id = project_id;
    timestamp = ts;
    platform = or_else p.platform (codes "javascript");
    level = or_else p.level (codes "error");
    environment = or_else p.environment (codes "production");
    release = p.release;
    dist = p.dist;
    title = norm.title;
    culprit = norm.culprit;
    message = p.message;
    trace_id = trace_id_of lib p.trace;
    span_id = p.trace.span_id;
    user_hash = user_hash lib p.user;
    tags = parse_tags lib p.tags;
    payload = payload;
    issue = none;
  }

  -- storeEvent between the decoder and its first statement, with the time of the payload
  pub event_at : Envelope → Item → Bytes → EventPayload → Option ℤ → Result NewEvent
  event_at env item project_id p at_time = elim (event_id_from lib env p) [
    | err e ↦ err e
    | ok id ↦ elim at_time [
      | none ↦ err bad_timestamp
      | some ts ↦ elim (lib.decode_raw_event item.payload) [
        | none ↦ err bad_event
        | some raw ↦
            let norm = normalize_event lib.sha256 raw in
            ok (record {
              row = event_row project_id item.payload id ts p norm;
              key = record { project_id = project_id; fingerprint = norm.fingerprint };
            })
      ]
    ]
  ]

  -- storeEvent up to its first statement
  pub new_event : Moment → Envelope → Item → Bytes → Result NewEvent
  new_event m env item project_id = elim (lib.decode_event item.payload) [
    | none ↦ err bad_payload
    | some p ↦ event_at env item project_id p (timestamp_of lib m p)
  ]

  -- the tables after the statements behind the insertion, with the feedbacks as they are then
  pub after_event : NewEvent → List FeedbackRow → Tables → Tables
  after_event e feedbacks db =
      let r = e.row in
      record db {
        events = link_event r.id r.timestamp e.key (r ∷ db.events);
        issues = (upsert_issue (event_of e) db.issues).store;
        event_rollups =
            count_up same_issue_hour (e.key, lib.truncate_hour r.timestamp) db.event_rollups;
        project_rollups =
            count_up same_project_hour (r.project_id, lib.truncate_hour r.timestamp)
              db.project_rollups;
        feedbacks = feedbacks;
        releases = touch_release r.project_id r.release r.timestamp db.releases;
      }

  -- the statements behind the insertion of an event that is no duplicate
  pub fold_event : NewEvent → Tables → Result (Stored Tables)
  fold_event e db =
      elim (backfill_feedback lib e.row.project_id e.key e.row.id e.row.timestamp db.feedbacks) [
        | none ↦ err aborted
        | some feedbacks ↦ ok (record {
          db = after_event e feedbacks db;
          duplicate = false;
          signal = some (signal_of e (upsert_issue (event_of e) db.issues));
        })
      ]

  -- the insertion and what follows
  pub add_event : NewEvent → Tables → Result (Stored Tables)
  add_event e db =
      if has_event e.row.id e.row.timestamp db.events
      then ok (record { db = db; duplicate = true; signal = none })
      else fold_event e db

  -- storeEvent
  pub store_event : Moment → Envelope → Item → Bytes → Tables → Result (Stored Tables)
  store_event m env item project_id db = elim (new_event m env item project_id) [
    | err e ↦ err e
    | ok e ↦ add_event e db
  ]

  -- the end of a transaction: a timestamp that is not understood is as one that is missing
  pub end_of : Moment → EventPayload → ℤ
  end_of m p = elim (timestamp_of lib m p) [ none ↦ m.now | some t ↦ t ]

  -- the columns of a transaction
  pub transaction_row : Bytes → Bytes → Bytes → ℤ → ℤ → TransactionPayload → TransactionRow
  transaction_row project_id payload id end_ts start_ts p = record {
    id = id;
    project_id = project_id;
    timestamp = end_ts;
    start_timestamp = start_ts;
    trace_id = trace_id_of lib p.event.trace;
    span_id = p.event.trace.span_id;
    name = p.transaction;
    source = p.source;
    status = p.event.trace.status;
    environment = or_else p.event.environment (codes "production");
    release = p.event.release;
    dist = p.event.dist;
    measurements = p.measurements;
    payload = payload;
  }

  -- the checks of a transaction
  pub new_transaction : Moment → Envelope → Item → Bytes → Result TransactionRow
  new_transaction m env item project_id = elim (lib.decode_transaction item.payload) [
    | none ↦ err bad_payload
    | some p ↦ elim (event_id_from lib env p.event) [
      | err e ↦ err e
      | ok id ↦
          if is_empty p.start_timestamp
          then err missing_start_timestamp
          else elim (parse_timestamp lib p.start_timestamp) [
            | none ↦ err bad_timestamp
            | some start_ts ↦
                if ltb_ℤ (end_of m p.event) start_ts
                then err ends_before_start
                else ok (transaction_row project_id item.payload id (end_of m p.event) start_ts p)
          ]
    ]
  ]

  -- the insertion of a transaction and its release
  pub add_transaction : TransactionRow → Tables → Stored Tables
  add_transaction t db =
      if has_transaction t.id t.timestamp db.transactions
      then record { db = db; duplicate = true; signal = none }
      else record {
        db = record db {
          transactions = t ∷ db.transactions;
          releases = touch_release t.project_id t.release t.start_timestamp db.releases;
        };
        duplicate = false;
        signal = none;
      }

  -- storeTransaction
  pub store_transaction : Moment → Envelope → Item → Bytes → Tables → Result (Stored Tables)
  store_transaction m env item project_id db = elim (new_transaction m env item project_id) [
    | err e ↦ err e
    | ok t ↦ ok (add_transaction t db)
  ]
