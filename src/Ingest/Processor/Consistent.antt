-- ===== src/Ingest/Processor/Consistent.antt =====
-- What the tables keep, whatever envelope is processed.
use bug_han.Prelude.Int.{ℤ}
use bug_han.Prelude.{ℕ, ◌≡◌, refl, false, sym, subst, Option, none, some, List, Bytes, All}
use bug_han.Ingest.Envelope.{Item, Envelope}
use bug_han.Ingest.Sessions
use bug_han.Ingest.Sessions.Rollups.{IsBalanced, IsBalancedStore, store_session-IsBalanced}
use bug_han.Ingest.Payloads.{
  Libraries, Aggregate, AggregatesPayload, Moment, Failure, ok, err, bad_session,
}
use bug_han.Ingest.Tables.{Tables, FeedbackRow}
use bug_han.Ingest.Events.{NewEvent, has_event, after_event}
use bug_han.Ingest.Events.Steps.{sessions-after_event, store_event-Keeps}
use bug_han.Ingest.Events.Reconcile.{Reconciles, after_event-Reconciles}
use bug_han.Ingest.Events.Transactions.{store_transaction-Keeps}
use bug_han.Ingest.Aggregates.{add_aggregate}
use bug_han.Ingest.Aggregates.Balanced.{Fits, AreBalanced, add_aggregate-AreBalanced}
use bug_han.Ingest.Aggregates.Steps.{store_session_aggregates-Keeps}
use bug_han.Ingest.Feedback.{backfill_feedback}
use bug_han.Ingest.Feedback.Sources.{IsSourced, insert_feedback-All, store_feedback-Keeps}
use bug_han.Ingest.Pipeline.Invariants.{Keeps, Asked, ArePreserving, process-Keeps}
use bug_han.Ingest.Processor.Linked.{AreLinked, after_event-AreLinked}
use bug_han.Ingest.Processor.{
  session_libraries, store_session_item, count_unknown_item, processor, process_envelope,
}

-- the counters agree with the events, feedback is linked to events that it names, and no session is
-- counted under two outcomes
pub record AreConsistent (db : Tables) : Type 0 where
  pub reconciles : Reconciles db
  pub linked : AreLinked db
  pub balanced : AreBalanced db

-- the invariant reads the events, the issues, the hourly counts, the feedback and the rollups
same_reads :
    (db db' : Tables)
    → db.issues ≡ db'.issues
    → db.events ≡ db'.events
    → db.event_rollups ≡ db'.event_rollups
    → db.project_rollups ≡ db'.project_rollups
    → AreConsistent db
    → All (IsSourced db.events) db'.feedbacks
    → All IsBalanced db'.sessions.rollups
    → AreConsistent db'
same_reads db db' a b c d h f r = record {
  reconciles = record {
    issues = λ k. rw (← a, ← b) (h.reconciles.issues k);
    hours = λ k. rw (← c, ← b) (h.reconciles.hours k);
    projects = λ p. rw (← d, ← b) (h.reconciles.projects p);
  };
  linked = record { linked = rw (← b) f };
  balanced = record { balanced = r };
}

module _ (lib : Libraries) (project_id : Bytes) where
  after_event-AreConsistent :
      (e : NewEvent) (feedbacks : List FeedbackRow) (db : Tables)
      → has_event e.row.id e.row.timestamp db.events ≡ false
      → backfill_feedback lib e.row.project_id e.key e.row.id e.row.timestamp db.feedbacks
        ≡ some feedbacks
      → AreConsistent db
      → AreConsistent (after_event lib e feedbacks db)
  after_event-AreConsistent e feedbacks db fresh b h = record {
    reconciles = after_event-Reconciles lib e feedbacks db fresh h.reconciles;
    linked = after_event-AreLinked lib e feedbacks db fresh b h.linked;
    balanced = record {
      balanced =
          subst (λ s. All IsBalanced s.rollups) (sym (sessions-after_event lib e feedbacks db))
            h.balanced.balanced;
    };
  }

  add_aggregate-AreConsistent :
      (release environment : Bytes) (started hour : ℤ) (a : Aggregate) (db : Tables)
      → Fits a
      → AreConsistent db
      → AreConsistent (add_aggregate project_id release environment started hour a db)
  unfolding add_aggregate
  add_aggregate-AreConsistent release environment started hour a db f h =
      same_reads db _ refl refl refl refl h h.linked.linked (
        (add_aggregate-AreBalanced project_id release environment started hour a db f
          h.balanced).balanced)

  stored_session-Keeps :
      (db : Tables) (r : Sessions.Result Sessions.Store)
      → IsBalancedStore r
      → AreConsistent db
      → Keeps AreConsistent (elim r [
        | Sessions.err e ↦ err (bad_session e)
        | Sessions.ok sessions ↦ ok (record db { sessions = sessions })
      ])
  stored_session-Keeps db (Sessions.err e) b h = tt
  stored_session-Keeps db (Sessions.ok sessions) b h =
      same_reads db _ refl refl refl refl h h.linked.linked b

  decoded_session-Keeps :
      (m : Moment) (o : Option Sessions.Payload) (db : Tables) (f : Failure)
      → AreConsistent db
      → Keeps AreConsistent (elim o [
        | none ↦ err f
        | some p ↦
            elim (Sessions.store_session
              (session_libraries lib project_id m)
              project_id
              p
              db.sessions) [
                | Sessions.err e ↦ err (bad_session e)
                | Sessions.ok sessions ↦ ok (record db { sessions = sessions })
              ]
      ])
  decoded_session-Keeps m none db f h = tt
  decoded_session-Keeps m (some p) db f h =
      stored_session-Keeps db
        (Sessions.store_session (session_libraries lib project_id m) project_id p db.sessions)
        (store_session-IsBalanced (session_libraries lib project_id m) project_id p db.sessions
          h.balanced.balanced)
        h

  store_session_item-Keeps :
      (m : Moment) (item : Item) (db : Tables)
      → AreConsistent db
      → Keeps AreConsistent (store_session_item lib project_id m item db)
  unfolding store_session_item
  store_session_item-Keeps m item db h =
      decoded_session-Keeps m (lib.decode_session item.payload) db _ h

  -- no aggregate of the item has a sum that wraps around
  abbrev pub HasFitting : Item → Type 0
  HasFitting item =
      (s : AggregatesPayload) → lib.decode_aggregates item.payload ≡ some s → All Fits s.aggregates

  processor-ArePreserving :
      (env : Envelope) → ArePreserving AreConsistent HasFitting (processor lib project_id) env
  unfolding processor count_unknown_item
  processor-ArePreserving env = record {
    event = λ m item db h.
        store_event-Keeps lib AreConsistent m env item project_id db
          (λ e feedbacks fresh b. after_event-AreConsistent e feedbacks db fresh b h) h;
    transaction = λ m item db h.
        store_transaction-Keeps lib AreConsistent
          (λ transactions releases db' h'.
            same_reads db' _ refl refl refl refl h' h'.linked.linked h'.balanced.balanced)
          m env item project_id db h;
    session = store_session_item-Keeps;
    sessions = λ m item db q h.
        store_session_aggregates-Keeps lib project_id AreConsistent Fits add_aggregate-AreConsistent
          item db q h;
    feedback = λ m item db h.
        store_feedback-Keeps AreConsistent lib m env item project_id db (λ f s.
          same_reads db _ refl refl refl refl h
            (insert_feedback-All (IsSourced db.events) f db.feedbacks s h.linked.linked)
            h.balanced.balanced);
    count_unknown =
        λ m type db h. same_reads db _ refl refl refl refl h h.linked.linked h.balanced.balanced;
  }

  -- Suppose that every issue's count and its hourly counts together are the number of its stored events,
  -- the hourly counts of every project together the number of the project's, every feedback that has an
  -- issue names a stored event of its project under that issue, and every rollup's crashed, abnormal,
  -- errored and exited sessions are at most its total. Then all of it is so after any envelope is
  -- processed in which no aggregate of a `sessions` item adds up to more than 64 bits hold, whatever its
  -- items are, and whether it is committed or rolled back.
  pub process_envelope-AreConsistent :
      (env : Envelope) (moment : ℕ → Moment) (db : Tables)
      → All (Asked AreConsistent HasFitting) env.items
      → AreConsistent db
      → AreConsistent (process_envelope lib project_id env moment db).0
  unfolding process_envelope
  process_envelope-AreConsistent env moment db q h =
      process-Keeps AreConsistent HasFitting (processor lib project_id) env
        (processor-ArePreserving env) moment db q h
