-- ===== src/Ingest/Events/Steps.antt =====
-- What storing an event does to the tables, where it is a duplicate and where it is new.
use bug_han.Prelude.{
  ◌≡◌, refl, sym, ap, subst, true, false, Option, none, some, List, [], ◌∷◌, Bytes, arith, eqb_refl,
  Bool-cases, inl, inr,
}
use bug_han.Prelude.Int.{ℤ, pos, negsuc}
use bug_han.Ingest.Envelope.{Item, Envelope}
use bug_han.Ingest.Issues.{Key}
use bug_han.Ingest.Sessions.{eq_ℤ}
use bug_han.Ingest.Payloads.{Libraries, Moment, Failure, Result, ok, err}
use bug_han.Ingest.Tables.{EventRow, FeedbackRow, Tables}
use bug_han.Ingest.Feedback.{backfill_feedback}
use bug_han.Ingest.Pipeline.{AlertSignal, Stored}
use bug_han.Ingest.Pipeline.Invariants.{KeepsStored}
use bug_han.Ingest.Events.{
  NewEvent, is_event, has_event, link_event, new_event, after_event, fold_event, add_event,
  store_event,
}

pub eq_ℤ_refl : (t : ℤ) → eq_ℤ t t ≡ true
eq_ℤ_refl (pos n) = ground arith
eq_ℤ_refl (negsuc n) = ground arith

-- a row stands for its own id and time
pub is_event_refl : (e : EventRow) → is_event e.id e.timestamp e ≡ true
is_event_refl e = ground (arith, eqb_refl e.id, eq_ℤ_refl e.timestamp)

-- a row that is not there is not linked
link_event-absent :
    (id : Bytes) (ts : ℤ) (k : Key) (events : List EventRow)
    → has_event id ts events ≡ false
    → link_event id ts k events ≡ events
unfolding has_event link_event
link_event-absent id ts k [] h = refl
link_event-absent id ts k (e ∷ events) h = elim (Bool-cases (is_event id ts e)) [
  | inl s ↦ absurd (ground arith)
  | inr s ↦ rw s (ap (λ r. e ∷ r) (link_event-absent id ts k events (rw s at h)))
]

-- the row of an event once it is linked
abbrev pub linked_row : NewEvent → EventRow
linked_row e = record e.row { issue = some e.key }

pub events-after_event :
    (lib : Libraries) (e : NewEvent) (feedbacks : List FeedbackRow) (db : Tables)
    → has_event e.row.id e.row.timestamp db.events ≡ false
    → (after_event lib e feedbacks db).events ≡ linked_row e ∷ db.events
unfolding after_event link_event
events-after_event lib e feedbacks db h =
    let id = e.row.id in
    let ts = e.row.timestamp in
    rw (is_event_refl e.row)
      (ap (λ r. linked_row e ∷ r) (link_event-absent id ts e.key db.events h))

pub feedbacks-after_event :
    (lib : Libraries) (e : NewEvent) (feedbacks : List FeedbackRow) (db : Tables)
    → (after_event lib e feedbacks db).feedbacks ≡ feedbacks
unfolding after_event
feedbacks-after_event lib e feedbacks db = refl

pub sessions-after_event :
    (lib : Libraries) (e : NewEvent) (feedbacks : List FeedbackRow) (db : Tables)
    → (after_event lib e feedbacks db).sessions ≡ db.sessions
unfolding after_event
sessions-after_event lib e feedbacks db = refl

-- what a duplicate is told
abbrev pub duplicate_of : Tables → Result (Stored Tables)
duplicate_of db = ok (record { db = db; duplicate = true; signal = none })

pub add_event-there :
    (lib : Libraries) (e : NewEvent) (db : Tables)
    → has_event e.row.id e.row.timestamp db.events ≡ true
    → add_event lib e db ≡ duplicate_of db
unfolding add_event
add_event-there lib e db h = rw h refl

pub add_event-fresh :
    (lib : Libraries) (e : NewEvent) (db : Tables)
    → has_event e.row.id e.row.timestamp db.events ≡ false
    → add_event lib e db ≡ fold_event lib e db
unfolding add_event
add_event-fresh lib e db h = rw h refl

-- an invariant kept where the event is new
module _ (lib : Libraries) (P : Tables → Type 0) where
  abbrev KeptByNew : NewEvent → Tables → Type 0
  KeptByNew e db =
      (feedbacks : List FeedbackRow)
      → has_event e.row.id e.row.timestamp db.events ≡ false
      → backfill_feedback lib e.row.project_id e.key e.row.id e.row.timestamp db.feedbacks
        ≡ some feedbacks
      → P (after_event lib e feedbacks db)

  backfills-Keeps :
      (e : NewEvent) (db : Tables) (o : Option (List FeedbackRow)) (f : Failure)
      (signal : Option AlertSignal)
      → ((feedbacks : List FeedbackRow) → o ≡ some feedbacks → P (after_event lib e feedbacks db))
      → KeepsStored P (elim o [
        | none ↦ err f
        | some feedbacks ↦
            ok (record { db = after_event lib e feedbacks db; duplicate = false; signal = signal })
      ])
  backfills-Keeps e db none f signal h = tt
  backfills-Keeps e db (some feedbacks) f signal h = h feedbacks refl

  fold_event-Keeps :
      (e : NewEvent) (db : Tables)
      → has_event e.row.id e.row.timestamp db.events ≡ false
      → KeptByNew e db
      → KeepsStored P (fold_event lib e db)
  unfolding fold_event
  fold_event-Keeps e db fresh h = backfills-Keeps e db _ _ _ (λ feedbacks b. h feedbacks fresh b)

  add_event-Keeps :
      (e : NewEvent) (db : Tables) → KeptByNew e db → P db → KeepsStored P (add_event lib e db)
  add_event-Keeps e db h p = elim (Bool-cases (has_event e.row.id e.row.timestamp db.events)) [
    | inl there ↦ subst (KeepsStored P) (sym (add_event-there lib e db there)) p
    | inr fresh ↦
        subst (KeepsStored P) (sym (add_event-fresh lib e db fresh)) (fold_event-Keeps e db fresh h)
  ]

  decodes-Keeps :
      (db : Tables) (r : Result NewEvent)
      → ((e : NewEvent) → KeptByNew e db)
      → P db
      → KeepsStored P (elim r [ err e ↦ err e | ok e ↦ add_event lib e db ])
  decodes-Keeps db (err f) h p = tt
  decodes-Keeps db (ok e) h p = add_event-Keeps e db (h e) p

  pub store_event-Keeps :
      (m : Moment) (env : Envelope) (item : Item) (project_id : Bytes) (db : Tables)
      → ((e : NewEvent) → KeptByNew e db)
      → P db
      → KeepsStored P (store_event lib m env item project_id db)
  unfolding store_event
  store_event-Keeps m env item project_id db h p =
      decodes-Keeps db (new_event lib m env item project_id) h p
