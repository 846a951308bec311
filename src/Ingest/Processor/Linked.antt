-- ===== src/Ingest/Processor/Linked.antt =====
-- Feedback stays linked to the issues of the events it names, whatever items are stored.
use bug_han.Prelude.{◌≡◌, refl, sym, subst, false, some, List, ◌∷◌, All}
use bug_han.Ingest.Payloads.{Libraries}
use bug_han.Ingest.Tables.{FeedbackRow, Tables}
use bug_han.Ingest.Events.{NewEvent, has_event, after_event}
use bug_han.Ingest.Events.Steps.{linked_row, events-after_event, feedbacks-after_event}
use bug_han.Ingest.Feedback.{backfill_feedback}
use bug_han.Ingest.Feedback.Sources.{IsSourced}
use bug_han.Ingest.Feedback.Backfill.{SourcedRows, backfill_feedback-Sourced}

-- every feedback that has an issue has it from an event that it names
pub record AreLinked (db : Tables) : Type 0 where
  pub linked : All (IsSourced db.events) db.feedbacks

module _ (lib : Libraries) where
  pub after_event-AreLinked :
      (e : NewEvent) (feedbacks : List FeedbackRow) (db : Tables)
      → has_event e.row.id e.row.timestamp db.events ≡ false
      → backfill_feedback lib e.row.project_id e.key e.row.id e.row.timestamp db.feedbacks
        ≡ some feedbacks
      → AreLinked db
      → AreLinked (after_event lib e feedbacks db)
  after_event-AreLinked e feedbacks db fresh b h = record {
    linked =
        let sourced : SourcedRows lib (linked_row e) db.events e.key refl (some feedbacks) =
          subst (SourcedRows lib (linked_row e) db.events e.key refl) b (
            backfill_feedback-Sourced lib (linked_row e) db.events e.key refl db.feedbacks
              h.linked) in
        subst (λ rows. All (IsSourced rows) (after_event lib e feedbacks db).feedbacks)
          (sym (events-after_event lib e feedbacks db fresh))
          (subst (All (IsSourced (linked_row e ∷ db.events)))
            (sym (feedbacks-after_event lib e feedbacks db)) sourced);
  }
