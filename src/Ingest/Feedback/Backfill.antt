-- ===== src/Ingest/Feedback/Backfill.antt =====
-- The feedbacks that a new event links are those that name it.
use bug_han.Prelude.{
  ◌≡◌, sym, ap, ◌∙◌, Bool, true, false, Option, none, some, List, [], ◌∷◌, Bytes, arith,
  if◌then◌else◌, eqb, eqb_sound, Bool-cases, inl, inr, and_left, and_right, All,
}
use bug_han.Ingest.Issues.{Key}
use bug_han.Ingest.Payloads.{Libraries}
use bug_han.Ingest.Tables.{EventRow, FeedbackRow}
use bug_han.Ingest.Feedback.{is_some_id, is_in_window, is_waiting, backfilled, backfill_feedback}
use bug_han.Ingest.Feedback.Sources.{IsSourced}

is_some_id_sound : (o : Option Bytes) (id : Bytes) → is_some_id o id ≡ true → o ≡ some id
is_some_id_sound none id h = ground arith
is_some_id_sound (some a) id h = ap some (eqb_sound a id h)

module _ (lib : Libraries) (e : EventRow) (events : List EventRow) (k : Key)
    (issue : e.issue ≡ some k) where
  -- a waiting row that is linked has its source in the event
  linked-IsSourced :
      (f : FeedbackRow)
      → is_waiting e.project_id e.id f ≡ true
      → IsSourced (e ∷ events) (record f { issue = some k })
  unfolding is_waiting
  linked-IsSourced f w = λ j i. inl (record {
    id =
        is_some_id_sound f.associated_event_id e.id
          (and_left _ _ (and_right (eqb f.project_id e.project_id) _ w));
    project = sym (eqb_sound f.project_id e.project_id (and_left _ _ w));
    issue = issue ∙ i;
  })

  kept-IsSourced : (f : FeedbackRow) → IsSourced events f → IsSourced (e ∷ events) f
  kept-IsSourced f h = λ j i. inr (h j i)

  abbrev SourcedRow : Option FeedbackRow → Type 0
  SourcedRow none = Unit {0}
  SourcedRow (some f) = IsSourced (e ∷ events) f

  window-Sourced :
      (f : FeedbackRow) (o : Option Bool)
      → is_waiting e.project_id e.id f ≡ true
      → IsSourced events f
      → SourcedRow (elim o [
        | none ↦ none
        | some inside ↦ some (if inside then record f { issue = some k } else f)
      ])
  window-Sourced f none w h = tt
  window-Sourced f (some true) w h = linked-IsSourced f w
  window-Sourced f (some false) w h = kept-IsSourced f h

  backfilled-Sourced :
      (f : FeedbackRow)
      → IsSourced events f
      → SourcedRow (backfilled lib e.project_id k e.id e.timestamp f)
  unfolding backfilled
  backfilled-Sourced f h = elim (Bool-cases (is_waiting e.project_id e.id f)) [
    | inl w ↦ rw w (window-Sourced f (is_in_window lib f.payload e.timestamp) w h)
    | inr w ↦ rw w (kept-IsSourced f h)
  ]

  abbrev pub SourcedRows : Option (List FeedbackRow) → Type 0
  SourcedRows none = Unit {0}
  SourcedRows (some rows) = All (IsSourced (e ∷ events)) rows

  conses-Sourced :
      (o : Option FeedbackRow) (rest : Option (List FeedbackRow))
      → SourcedRow o
      → SourcedRows rest
      → SourcedRows (elim o [
        | none ↦ none
        | some f' ↦ elim rest [ none ↦ none | some rows' ↦ some (f' ∷ rows') ]
      ])
  conses-Sourced none rest h hs = tt
  conses-Sourced (some f) none h hs = tt
  conses-Sourced (some f) (some rows) h hs = (h, hs)

  pub backfill_feedback-Sourced :
      (rows : List FeedbackRow)
      → All (IsSourced events) rows
      → SourcedRows (backfill_feedback lib e.project_id k e.id e.timestamp rows)
  unfolding backfill_feedback
  backfill_feedback-Sourced [] h = tt
  backfill_feedback-Sourced (f ∷ rows) (h, hs) =
      conses-Sourced (backfilled lib e.project_id k e.id e.timestamp f)
        (backfill_feedback lib e.project_id k e.id e.timestamp rows) (backfilled-Sourced f h)
        (backfill_feedback-Sourced rows hs)
