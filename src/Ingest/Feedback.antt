-- ===== src/Ingest/Feedback.antt =====
-- internal/ingest/store.go: storeFeedback, the issue that a feedback is linked to when it comes, and
-- backfillFeedback, which links those that came before their event. Times are in nanoseconds.
pub mod Sources
pub mod Backfill
use bug_han.Prelude.{
  ℕ, Bool, true, false, not, ◌&&◌, ◌||◌, Option, none, some, List, [], ◌∷◌, ◌++◌, Bytes, codes,
  if◌then◌else◌, eqb, is_empty, to_lower, cut_byte,
}
use bug_han.Prelude.Int.{ℤ, pos, ◌+ℤ◌, ltb_ℤ}
use bug_han.Ingest.Envelope.{Item, Envelope}
use bug_han.Ingest.Issues.{Key}
use bug_han.Ingest.Patterns.{is_digit, every}
use bug_han.Ingest.Payloads.{
  Libraries, Moment, Result, ok, err, bad_payload, missing_message, not_feedback, FeedbackPayload,
  UserReport, parse_timestamp,
}
use bug_han.Ingest.Tables.{EventRow, FeedbackRow, Tables}

-- associationWindow, 30 minutes, which are the 1800 seconds of backfillFeedback
abbrev pub association_window : ℤ
association_window = pos 1_800_000_000_000

-- a.Sub(b) > associationWindow
abbrev pub is_far_after : ℤ → ℤ → Bool
is_far_after a b = ltb_ℤ (b +ℤ association_window) a

abbrev pub is_some_id : Option Bytes → Bytes → Bool
is_some_id none id = false
is_some_id (some a) id = eqb a id

-- `WHERE id = $1 AND project_id = $2 ORDER BY timestamp DESC LIMIT 1`
abbrev pub later : EventRow → Option EventRow → EventRow
later e none = e
later e (some f) = if ltb_ℤ e.timestamp f.timestamp then f else e

pub latest_event : Bytes → Bytes → List EventRow → Option EventRow
latest_event project_id id [] = none
latest_event project_id id (e ∷ events) =
    let rest = latest_event project_id id events in
    if eqb e.id id && eqb e.project_id project_id then some (later e rest) else rest

-- the last guard of resolveFeedbackIssue; `&&` binds tighter than `||`
pub is_outside : Bool → ℤ → ℤ → Bool
is_outside has_ts event_ts feedback_ts =
    (has_ts && is_far_after event_ts feedback_ts) || is_far_after feedback_ts event_ts

-- resolveFeedbackIssue
pub resolve_feedback_issue : Bytes → Option Bytes → ℤ → Bool → List EventRow → Option Key
resolve_feedback_issue project_id none feedback_ts has_ts events = none
resolve_feedback_issue project_id (some id) feedback_ts has_ts events =
    elim (latest_event project_id id events) [
      | none ↦ none
      | some e ↦ if is_outside has_ts e.timestamp feedback_ts then none else e.issue
    ]

-- `'^[0-9]+(\.[0-9]+)?$'`
pub is_decimal : Bytes → Bool
is_decimal s =
    let digits : Bytes → Bool = λ t. not (is_empty t) && every is_digit t in
    elim (cut_byte b'.' s) [ none ↦ digits s | some (whole, part) ↦ digits whole && digits part ]

-- ABS(…) <= 1800
pub is_near : ℤ → ℤ → Bool
is_near a b = not (is_far_after a b) && not (is_far_after b a)

-- `INSERT … ON CONFLICT (id) DO NOTHING`
pub has_feedback : Bytes → List FeedbackRow → Bool
has_feedback id [] = false
has_feedback id (f ∷ rows) = eqb f.id id || has_feedback id rows

pub insert_feedback : FeedbackRow → List FeedbackRow → List FeedbackRow
insert_feedback f rows = if has_feedback f.id rows then rows else f ∷ rows

-- a row that waits for the event
pub is_waiting : Bytes → Bytes → FeedbackRow → Bool
is_waiting project_id event_id f =
    eqb f.project_id project_id
    && (is_some_id f.associated_event_id event_id
        && (elim f.issue [ none ↦ true | some k ↦ false ]))

module _ (lib : Libraries) where
  -- the condition on the time of a waiting feedback; `none` is a cast that fails
  pub is_in_window : Bytes → ℤ → Option Bool
  is_in_window payload event_ts = elim (lib.payload_timestamp payload) [
    | none ↦ some true
    | some t ↦
        if is_empty t
        then some true
        else if is_decimal t
        then some (is_near (lib.to_timestamp t) event_ts)
        else elim (lib.timestamptz t) [
          | none ↦ none
          | some at_time ↦ some (is_near at_time event_ts)
        ]
  ]

  -- the row after the update, where the condition is met
  pub backfilled : Bytes → Key → Bytes → ℤ → FeedbackRow → Option FeedbackRow
  backfilled project_id k event_id event_ts f =
      if is_waiting project_id event_id f
      then elim (is_in_window f.payload event_ts) [
        | none ↦ none
        | some inside ↦ some (if inside then record f { issue = some k } else f)
      ]
      else some f

  -- backfillFeedback; where a cast fails the transaction is aborted
  pub backfill_feedback : Bytes → Key → Bytes → ℤ → List FeedbackRow → Option (List FeedbackRow)
  backfill_feedback project_id k event_id event_ts [] = some []
  backfill_feedback project_id k event_id event_ts (f ∷ rows) =
      elim (backfilled project_id k event_id event_ts f) [
        | none ↦ none
        | some f' ↦ elim (backfill_feedback project_id k event_id event_ts rows) [
          | none ↦ none
          | some rows' ↦ some (f' ∷ rows')
        ]
      ]

  -- an id that is a UUID, in any case of letters
  pub uuid_of : Bytes → Option Bytes
  uuid_of s = if is_empty s then none else lib.parse_uuid (to_lower s)

  -- feedbackID
  pub feedback_id : Moment → Envelope → Bytes → Bytes
  feedback_id m env payload_id = elim (uuid_of env.header.event_id) [
    | some id ↦ id
    | none ↦ elim (uuid_of payload_id) [ some id ↦ id | none ↦ m.fresh_uuid ]
  ]

  -- the time of a feedback and whether it has one of its own
  pub feedback_time : Moment → Bytes → ℤ × Bool
  feedback_time m raw = elim (parse_timestamp lib raw) [
    | some t ↦ (t, true)
    | none ↦ (m.now, false)
  ]

  -- the row of a `feedback` item
  pub feedback_row :
      Moment → Envelope → Bytes → Bytes → List EventRow → FeedbackPayload → FeedbackRow
  feedback_row m env project_id payload events f =
      let (ts, has_ts) = feedback_time m f.timestamp in
      let assoc = uuid_of f.associated_event_id in
      record {
        id = feedback_id m env f.event_id;
        project_id = project_id;
        associated_event_id = assoc;
        issue = resolve_feedback_issue project_id assoc ts has_ts events;
        name = f.name;
        contact_email = f.contact_email;
        message = f.message;
        url = f.url;
        payload = payload;
      }

  -- the row of a `user_report` item
  pub user_report_row : Moment → Envelope → Bytes → Bytes → List EventRow → UserReport → FeedbackRow
  user_report_row m env project_id payload events r =
      let assoc = uuid_of r.event_id in
      record {
        id = feedback_id m env [];
        project_id = project_id;
        associated_event_id = assoc;
        issue = resolve_feedback_issue project_id assoc m.now false events;
        name = r.name;
        contact_email = r.email;
        message = r.comments;
        url = [];
        payload = payload;
      }

  -- the row that storeFeedback inserts
  pub row_of_item : Moment → Envelope → Item → Bytes → List EventRow → Result FeedbackRow
  row_of_item m env item project_id events =
      if eqb item.header.type (codes "feedback")
      then elim (lib.decode_feedback item.payload) [
        | none ↦ err bad_payload
        | some f ↦
            if is_empty f.message
            then err missing_message
            else ok (feedback_row m env project_id item.payload events f)
      ]
      else if eqb item.header.type (codes "user_report")
      then elim (lib.decode_user_report item.payload) [
        | none ↦ err bad_payload
        | some r ↦ ok (user_report_row m env project_id item.payload events r)
      ]
      else err not_feedback

  -- storeFeedback
  pub store_feedback : Moment → Envelope → Item → Bytes → Tables → Result Tables
  store_feedback m env item project_id db = elim (row_of_item m env item project_id db.events) [
    | err e ↦ err e
    | ok f ↦ ok (record db { feedbacks = insert_feedback f db.feedbacks })
  ]
