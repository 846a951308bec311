-- ===== src/Ingest/Events/Reconcile.antt =====
-- The counters of the issues and the hourly rollups agree with the rows of events_part.
use bug_han.Prelude.{
  ℕ, ◌+◌, ◌≡◌, refl, sym, ap, ◌∙◌, Bool, true, false, none, some, List, [], ◌∷◌, Bytes, arith,
  if◌then◌else◌, eqb, eqb_sound, Bool-cases, inl, inr, and_left,
}
use bug_han.Prelude.Int.{ℤ}
use bug_han.Ingest.Issues.{Key, same_key}
use bug_han.Ingest.Issues.Counters.{
  one_if, same_key_sound, count_at, count_at-none, upsert_issue-count,
}
use bug_han.Ingest.Payloads.{Libraries}
use bug_han.Ingest.Tables.{
  EventRow, FeedbackRow, Tables, count_up, same_issue_hour, same_project_hour,
}
use bug_han.Ingest.Events.{NewEvent, has_event, event_of, after_event}
use bug_han.Ingest.Events.Steps.{events-after_event}

-- the sum of the counts whose keys pass a test
pub sum_of {ℓ} : {K : Type ℓ} → (K → Bool) → List (K × ℕ) → ℕ
sum_of f [] = 0
sum_of f ((j, n) ∷ rows) = (if f j then n else 0) + sum_of f rows

sum_of-count_up {ℓ} :
    {K : Type ℓ} (f : K → Bool) (same : K → K → Bool) (k : K) (rows : List (K × ℕ))
    → ((j : K) → same j k ≡ true → f j ≡ f k)
    → sum_of f (count_up same k rows) ≡ one_if (f k) + sum_of f rows
unfolding sum_of count_up
sum_of-count_up f same k [] h = refl
sum_of-count_up f same k ((j, n) ∷ rows) h = elim (Bool-cases (same j k)) [
  | inl s ↦ elim (Bool-cases (f k)) [
    | inl t ↦ rw (s, h j s, t) (omega arith)
    | inr t ↦ rw (s, h j s, t) (omega arith)
  ]
  | inr s ↦ rw s (omega (arith, sum_of-count_up f same k rows h))
]

-- the rows of an issue, and those of a project
pub is_of_issue : Key → EventRow → Bool
is_of_issue k e = elim e.issue [ none ↦ false | some j ↦ same_key j k ]

pub count_rows : (EventRow → Bool) → List EventRow → ℕ
count_rows f [] = 0
count_rows f (e ∷ events) = one_if (f e) + count_rows f events

abbrev pub of_key : Key → Key × ℤ → Bool
of_key k (j, hour) = same_key j k

abbrev pub of_project : Bytes → Bytes × ℤ → Bool
of_project p (q, hour) = eqb q p

-- every issue's count, its hours together, and the hours of every project together are the numbers of
-- their events
pub record Reconciles (db : Tables) : Type 0 where
  pub issues : (k : Key) → count_at k db.issues ≡ count_rows (is_of_issue k) db.events
  pub hours : (k : Key) → sum_of (of_key k) db.event_rollups ≡ count_rows (is_of_issue k) db.events
  pub projects :
      (p : Bytes)
      → sum_of (of_project p) db.project_rollups ≡ count_rows (λ e. eqb e.project_id p) db.events

-- tables without events and issues reconcile
pub no_events-Reconciles :
    (db : Tables)
    → db.events ≡ []
    → db.issues ≡ record { issues = []; users = [] }
    → db.event_rollups ≡ []
    → db.project_rollups ≡ []
    → Reconciles db
unfolding sum_of count_rows
no_events-Reconciles db e i h p = record {
  issues = λ k. rw (e, i) (count_at-none k []);
  hours = λ k. rw (e, h) refl;
  projects = λ k. rw (e, p) refl;
}

module _ (lib : Libraries) where
  pub after_event-Reconciles :
      (e : NewEvent) (feedbacks : List FeedbackRow) (db : Tables)
      → has_event e.row.id e.row.timestamp db.events ≡ false
      → Reconciles db
      → Reconciles (after_event lib e feedbacks db)
  unfolding after_event count_rows is_of_issue event_of
  after_event-Reconciles e feedbacks db fresh h = record {
    issues = λ k.
        upsert_issue-count (event_of e) k db.issues
        ∙ ap (λ n. one_if (same_key e.key k) + n) (h.issues k)
        ∙ sym (ap (count_rows (is_of_issue k)) (events-after_event lib e feedbacks db fresh));
    hours = λ k.
        sum_of-count_up (of_key k) same_issue_hour _ db.event_rollups
          (λ j s. ap (λ x. same_key x k) (same_key_sound j.0 e.key (and_left _ _ s)))
        ∙ ap (λ n. one_if (same_key e.key k) + n) (h.hours k)
        ∙ sym (ap (count_rows (is_of_issue k)) (events-after_event lib e feedbacks db fresh));
    projects = λ p.
        sum_of-count_up (of_project p) same_project_hour _ db.project_rollups
          (λ j s. ap (λ x. eqb x p) (eqb_sound j.0 e.row.project_id (and_left _ _ s)))
        ∙ ap (λ n. one_if (eqb e.row.project_id p) + n) (h.projects p)
        ∙ sym (
            ap (count_rows (λ r. eqb r.project_id p))
              (events-after_event lib e feedbacks db fresh));
  }
