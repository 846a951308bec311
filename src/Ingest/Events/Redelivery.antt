-- ===== src/Ingest/Events/Redelivery.antt =====
-- An event that is delivered again changes nothing.
use bug_han.Prelude.{
  ◌≡◌, refl, sym, subst, ◌∙◌, true, false, Option, none, some, List, [], ◌∷◌, Bytes, arith,
  is_empty, Bool-cases, inl, inr,
}
use bug_han.Prelude.Int.{ℤ}
use bug_han.Ingest.Envelope.{Item, Envelope}
use bug_han.Ingest.Issues.{Key}
use bug_han.Ingest.Payloads.{
  Libraries, Moment, Failure, Result, ok, err, EventPayload, timestamp_of,
}
use bug_han.Ingest.Tables.{EventRow, FeedbackRow, Tables}
use bug_han.Ingest.Pipeline.{AlertSignal, Stored}
use bug_han.Ingest.Events.Steps.{is_event_refl, duplicate_of, add_event-there, add_event-fresh}
use bug_han.Ingest.Events.{
  NewEvent, is_event, has_event, link_event, new_event, after_event, fold_event, add_event,
  store_event,
}

-- linking keeps the ids and the times
pub has_event-link_event :
    (id : Bytes) (ts : ℤ) (id' : Bytes) (ts' : ℤ) (k : Key) (events : List EventRow)
    → has_event id ts (link_event id' ts' k events) ≡ has_event id ts events
unfolding has_event link_event
has_event-link_event id ts id' ts' k [] = refl
has_event-link_event id ts id' ts' k (e ∷ events) = elim (Bool-cases (is_event id' ts' e)) [
  | inl h ↦ rw (h, has_event-link_event id ts id' ts' k events) refl
  | inr h ↦ rw (h, has_event-link_event id ts id' ts' k events) refl
]

-- a stored event is there
has_event-after_event :
    (lib : Libraries) (e : NewEvent) (feedbacks : List FeedbackRow) (db : Tables)
    → has_event e.row.id e.row.timestamp (after_event lib e feedbacks db).events ≡ true
unfolding after_event has_event
has_event-after_event lib e feedbacks db =
    has_event-link_event e.row.id e.row.timestamp e.row.id e.row.timestamp e.key (e.row ∷ db.events)
    ∙ ground (arith, is_event_refl e.row)

-- the second time, where the first was accepted
abbrev AddsOnce : Libraries → NewEvent → Result (Stored Tables) → Type 0
AddsOnce lib e (ok s) = add_event lib e s.db ≡ duplicate_of s.db
AddsOnce lib e (err f) = Unit {0}

backfills-Once :
    (lib : Libraries) (e : NewEvent) (db : Tables) (o : Option (List FeedbackRow)) (f : Failure)
    (g : List FeedbackRow → Option AlertSignal)
    → AddsOnce lib e (elim o [
      | none ↦ err f
      | some feedbacks ↦
          ok (record {
            db = after_event lib e feedbacks db;
            duplicate = false;
            signal = g feedbacks;
          })
    ])
backfills-Once lib e db none f g = tt
backfills-Once lib e db (some feedbacks) f g =
    add_event-there lib e _ (has_event-after_event lib e feedbacks db)

add_event-Once :
    (lib : Libraries) (e : NewEvent) (db : Tables) → AddsOnce lib e (add_event lib e db)
unfolding fold_event
add_event-Once lib e db = elim (Bool-cases (has_event e.row.id e.row.timestamp db.events)) [
  | inl h ↦ rw (add_event-there lib e db h) (add_event-there lib e db h)
  | inr h ↦
      subst (AddsOnce lib e) (sym (add_event-fresh lib e db h)) (backfills-Once lib e db _ _ _)
]

-- a payload with a time of its own has it at any moment
new_event-steady :
    (lib : Libraries) (m m' : Moment) (env : Envelope) (item : Item) (project_id : Bytes)
    (p : EventPayload)
    → lib.decode_event item.payload ≡ some p
    → is_empty p.timestamp ≡ false
    → new_event lib m env item project_id ≡ new_event lib m' env item project_id
unfolding new_event timestamp_of
new_event-steady lib m m' env item project_id p d t = rw (d, new_event, t, timestamp_of) refl

-- the second delivery of what the first makes of the tables
abbrev pub IsRedelivered :
    Libraries → Moment → Envelope → Item → Bytes → Result (Stored Tables) → Type 0
IsRedelivered lib m env item project_id (ok s) =
    store_event lib m env item project_id s.db ≡ duplicate_of s.db
IsRedelivered lib m env item project_id (err f) = Unit {0}

repeats :
    (lib : Libraries) (m : Moment) (env : Envelope) (item : Item) (project_id : Bytes)
    (e : NewEvent) (r : Result (Stored Tables))
    → new_event lib m env item project_id ≡ ok e
    → AddsOnce lib e r
    → IsRedelivered lib m env item project_id r
unfolding store_event
repeats lib m env item project_id e (err f) n h = tt
repeats lib m env item project_id e (ok s) n h = rw (n, store_event) h

decides :
    (lib : Libraries) (m : Moment) (env : Envelope) (item : Item) (project_id : Bytes) (db : Tables)
    (r : Result NewEvent)
    → new_event lib m env item project_id ≡ r
    → IsRedelivered lib m env item project_id (elim r [ err e ↦ err e | ok e ↦ add_event lib e db ])
decides lib m env item project_id db (err f) n = tt
decides lib m env item project_id db (ok e) n =
    repeats lib m env item project_id e _ n (add_event-Once lib e db)

-- Where the payload of an event item has a timestamp of its own, and the item is accepted, then
-- delivering the same item again, whatever the clock shows then, is answered as a duplicate, without a
-- signal, and leaves every table as it is.
pub store_event-IsRedelivered :
    (lib : Libraries) (m m' : Moment) (env : Envelope) (item : Item) (project_id : Bytes)
    (db : Tables) (p : EventPayload)
    → lib.decode_event item.payload ≡ some p
    → is_empty p.timestamp ≡ false
    → IsRedelivered lib m' env item project_id (store_event lib m env item project_id db)
unfolding store_event
store_event-IsRedelivered lib m m' env item project_id db p d t =
    decides lib m' env item project_id db _
      (sym (new_event-steady lib m m' env item project_id p d t))
