-- ===== src/Ingest/Feedback/Sources.antt =====
-- Feedback is linked only to the issue of the event that it names, when it comes and when it is
-- backfilled.
use bug_han.Prelude.{
  ◌≡◌, sym, ap, Bool, ◌&&◌, Option, none, some, List, [], ◌∷◌, Bytes, arith, if◌then◌else◌, codes,
  is_empty, ◌≢◌, eqb, eqb_sound, Bool-cases, inl, inr, and_left, and_right, All, Any,
}
use bug_han.Prelude.Int.{ℤ, ltb_ℤ}
use bug_han.Ingest.Envelope.{Item, Envelope}
use bug_han.Ingest.Issues.{Key}
use bug_han.Ingest.Payloads.{
  Libraries, Moment, Result, ok, err, bad_payload, missing_message, FeedbackPayload, UserReport,
}
use bug_han.Ingest.Tables.{EventRow, FeedbackRow, Tables}
use bug_han.Ingest.Pipeline.Invariants.{Keeps}
use bug_han.Ingest.Feedback.{
  later, latest_event, is_outside, resolve_feedback_issue, has_feedback, insert_feedback,
  feedback_row, user_report_row, row_of_item, store_feedback,
}

-- an event of the project with the id that is named, stored under the issue
pub record Source (named : Option Bytes) (project_id : Bytes) (k : Key) (e : EventRow)
    : Type 0 where
  pub id : named ≡ some e.id
  pub project : e.project_id ≡ project_id
  pub issue : e.issue ≡ some k

-- a feedback that has an issue has it from such an event
abbrev pub IsSourced : List EventRow → FeedbackRow → Type 0
IsSourced events f =
    (k : Key) → f.issue ≡ some k → Any (Source f.associated_event_id f.project_id k) events

no_issue : (k : Key) → none ≢ some k
no_issue k i = ground arith

module _ (project_id id : Bytes) where
  -- the event that is chosen is one of the events
  abbrev Chosen : List EventRow → Option EventRow → Type 0
  Chosen events none = Unit {0}
  Chosen events (some e) = (k : Key) → e.issue ≡ some k → Any (Source (some id) project_id k) events

  Chosen-cons :
      (x : EventRow) (events : List EventRow) (o : Option EventRow)
      → Chosen events o
      → Chosen (x ∷ events) o
  Chosen-cons x events none h = tt
  Chosen-cons x events (some e) h = λ k i. inr (h k i)

  later-Chosen :
      (x : EventRow) (events : List EventRow) (o : Option EventRow)
      → x.id ≡ id
      → x.project_id ≡ project_id
      → Chosen events o
      → Chosen (x ∷ events) (some (later x o))
  later-Chosen x events none e p h =
      λ k i. inl (record { id = ap some (sym e); project = p; issue = i })
  later-Chosen x events (some f) e p h = elim (Bool-cases (ltb_ℤ x.timestamp f.timestamp)) [
    | inl t ↦ rw t (λ k i. inr (h k i))
    | inr t ↦ rw t (λ k i. inl (record { id = ap some (sym e); project = p; issue = i }))
  ]

  latest_event-Chosen : (events : List EventRow) → Chosen events (latest_event project_id id events)
  unfolding latest_event
  latest_event-Chosen [] = tt
  latest_event-Chosen (x ∷ events) =
      elim (Bool-cases (eqb x.id id && eqb x.project_id project_id)) [
        | inl s ↦ rw s (
            later-Chosen x events (latest_event project_id id events)
              (eqb_sound _ _ (and_left _ _ s)) (eqb_sound _ _ (and_right (eqb x.id id) _ s))
              (latest_event-Chosen events))
        | inr s ↦ rw s (Chosen-cons x events _ (latest_event-Chosen events))
      ]

  -- the issue of the chosen event, where it is taken
  issue_of-Chosen :
      (events : List EventRow) (o : Option EventRow) (has_ts : Bool) (ts : ℤ) (k : Key)
      → Chosen events o
      → elim o [ none ↦ none | some e ↦ if is_outside has_ts e.timestamp ts then none else e.issue ]
        ≡ some k
      → Any (Source (some id) project_id k) events
  issue_of-Chosen events none has_ts ts k h i = absurd (ground arith)
  issue_of-Chosen events (some e) has_ts ts k h i =
      elim (Bool-cases (is_outside has_ts e.timestamp ts)) [
        | inl s ↦ absurd (no_issue k (rw s at i))
        | inr s ↦ h k (rw s at i)
      ]

resolve_feedback_issue-Any :
    (project_id : Bytes) (named : Option Bytes) (ts : ℤ) (has_ts : Bool) (events : List EventRow)
    (k : Key)
    → resolve_feedback_issue project_id named ts has_ts events ≡ some k
    → Any (Source named project_id k) events
unfolding resolve_feedback_issue
resolve_feedback_issue-Any project_id none ts has_ts events k i = absurd (no_issue k i)
resolve_feedback_issue-Any project_id (some id) ts has_ts events k i =
    issue_of-Chosen project_id id events (latest_event project_id id events) has_ts ts k
      (latest_event-Chosen project_id id events) i

abbrev SourcedResult : List EventRow → Result FeedbackRow → Type 0
SourcedResult events (ok f) = IsSourced events f
SourcedResult events (err e) = Unit {0}

feedback-Sourced :
    (lib : Libraries) (m : Moment) (env : Envelope) (item : Item) (project_id : Bytes)
    (events : List EventRow) (o : Option FeedbackPayload)
    → SourcedResult events (elim o [
      | none ↦ err bad_payload
      | some f ↦
          if is_empty f.message
          then err missing_message
          else ok (feedback_row lib m env project_id item.payload events f)
    ])
unfolding feedback_row
feedback-Sourced lib m env item project_id events none = tt
feedback-Sourced lib m env item project_id events (some f) =
    elim (Bool-cases (is_empty f.message)) [
      | inl e ↦ rw e tt
      | inr e ↦ rw e (λ k i. resolve_feedback_issue-Any project_id _ _ _ events k i)
    ]

report-Sourced :
    (lib : Libraries) (m : Moment) (env : Envelope) (item : Item) (project_id : Bytes)
    (events : List EventRow) (o : Option UserReport)
    → SourcedResult events (elim o [
      | none ↦ err bad_payload
      | some r ↦ ok (user_report_row lib m env project_id item.payload events r)
    ])
unfolding user_report_row
report-Sourced lib m env item project_id events none = tt
report-Sourced lib m env item project_id events (some r) =
    λ k i. resolve_feedback_issue-Any project_id _ _ _ events k i

-- the row of an item is sourced
row_of_item-Sourced :
    (lib : Libraries) (m : Moment) (env : Envelope) (item : Item) (project_id : Bytes)
    (events : List EventRow)
    → SourcedResult events (row_of_item lib m env item project_id events)
unfolding row_of_item
row_of_item-Sourced lib m env item project_id events =
    elim (Bool-cases (eqb item.header.type (codes "feedback"))) [
      | inl f ↦
          rw f
            (feedback-Sourced lib m env item project_id events (lib.decode_feedback item.payload))
      | inr f ↦ elim (Bool-cases (eqb item.header.type (codes "user_report"))) [
        | inl u ↦
            rw (f, u)
              (report-Sourced lib m env item project_id events
                (lib.decode_user_report item.payload))
        | inr u ↦ rw (f, u) tt
      ]
    ]

pub insert_feedback-All :
    (P : FeedbackRow → Type 0) (f : FeedbackRow) (rows : List FeedbackRow)
    → P f
    → All P rows
    → All P (insert_feedback f rows)
unfolding insert_feedback
insert_feedback-All P f rows p h = elim (Bool-cases (has_feedback f.id rows)) [
  | inl s ↦ rw s h
  | inr s ↦ rw s (p, h)
]

module _ (P : Tables → Type 0) where
  inserts-Keeps :
      (db : Tables) (r : Result FeedbackRow)
      → SourcedResult db.events r
      → ((f : FeedbackRow)
          → IsSourced db.events f
          → P (record db { feedbacks = insert_feedback f db.feedbacks }))
      → Keeps P (elim r [
        | err e ↦ err e
        | ok f ↦ ok (record db { feedbacks = insert_feedback f db.feedbacks })
      ])
  inserts-Keeps db (err e) s h = tt
  inserts-Keeps db (ok f) s h = h f s

  -- an invariant is kept by a feedback item, where it is kept by a feedback that is linked, if at all, to
  -- the issue of the event that it names
  pub store_feedback-Keeps :
      (lib : Libraries) (m : Moment) (env : Envelope) (item : Item) (project_id : Bytes)
      (db : Tables)
      → ((f : FeedbackRow)
          → IsSourced db.events f
          → P (record db { feedbacks = insert_feedback f db.feedbacks }))
      → Keeps P (store_feedback lib m env item project_id db)
  unfolding store_feedback
  store_feedback-Keeps lib m env item project_id db h =
      inserts-Keeps db (row_of_item lib m env item project_id db.events)
        (row_of_item-Sourced lib m env item project_id db.events) h
