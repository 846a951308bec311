-- ===== src/Ingest/Pipeline.antt =====
-- internal/ingest/pipeline.go: Process, which stores the items of an envelope in one transaction. What
-- it does around the stores of the kinds of items is the same for any stores over any database; those
-- of the program are Ingest.Processor.
pub mod Totals
pub mod Invariants
mod Tests
use bug_han.Prelude.{
  ℕ, zero, suc, ◌+◌, Bool, true, false, ◌||◌, Option, none, some, List, [], ◌∷◌, ◌++◌, Bytes, codes,
  if◌then◌else◌, eqb,
}
use bug_han.Ingest.Envelope.{Item, Envelope}
use bug_han.Ingest.Issues.{Key}
use bug_han.Ingest.Payloads.{Result, ok, err, Moment}

-- AlertSignal, with the key of the issue for its id
pub record AlertSignal : Type 0 where
  pub issue : Key
  pub event_id : Bytes
  pub is_new : Bool
  pub is_regression : Bool
  pub environment : Bytes
  pub release : Bytes
  pub level : Bytes

-- ProcessResult
pub record ProcessResult : Type 0 where
  pub accepted : ℕ
  pub ignored : ℕ
  pub unknown : ℕ
  pub duplicates : ℕ
  pub signals : List AlertSignal

-- what a store makes of an item: the database after, whether the item was a duplicate, and a signal
pub record Stored (D : Type 0) : Type 0 where
  pub db : D
  pub duplicate : Bool
  pub signal : Option AlertSignal

-- the stores of the kinds of items
pub record Stores (D : Type 0) : Type 0 where
  pub event : Moment → Envelope → Item → D → Result (Stored D)
  pub transaction : Moment → Envelope → Item → D → Result (Stored D)
  pub session : Moment → Item → D → Result D
  pub sessions : Moment → Item → D → Result D
  pub feedback : Moment → Envelope → Item → D → Result D
  pub count_unknown : Moment → Bytes → D → Result D

-- the cases of the switch
pub data Kind : Type 0 where
  event transaction session sessions feedback tolerated unknown : Kind

abbrev pub tolerated_types : List Bytes
tolerated_types =
    codes "client_report"
    ∷ codes "attachment"
    ∷ codes "profile"
    ∷ codes "profile_chunk"
    ∷ codes "replay_event"
    ∷ codes "replay_recording"
    ∷ codes "replay_video"
    ∷ codes "check_in"
    ∷ codes "log"
    ∷ codes "otel_log"
    ∷ codes "span"
    ∷ codes "trace_metric"
    ∷ codes "security"
    ∷ []

pub is_one_of : List Bytes → Bytes → Bool
is_one_of [] t = false
is_one_of (u ∷ types) t = eqb t u || is_one_of types t

-- the switch on the type of an item
pub kind_of : Bytes → Kind
kind_of t =
    if eqb t (codes "event")
    then event
    else if eqb t (codes "transaction")
    then transaction
    else if eqb t (codes "session")
    then session
    else if eqb t (codes "sessions")
    then sessions
    else if eqb t (codes "feedback") || eqb t (codes "user_report")
    then feedback
    else if is_one_of tolerated_types t
    then tolerated
    else unknown

abbrev pub accept : ProcessResult → ProcessResult
accept res = record res { accepted = res.accepted + 1 }

-- the signals after one more event
abbrev pub with_signal : Option AlertSignal → List AlertSignal → List AlertSignal
with_signal none signals = signals
with_signal (some s) signals = signals ++ s ∷ []

module _ {D : Type 0} (stores : Stores D) (env : Envelope) where
  -- what counts for an item whose store tells duplicates
  pub tally : ProcessResult → Result (Stored D) → Result (D × ProcessResult)
  tally res (err e) = err e
  tally res (ok s) =
      if s.duplicate
      then ok (s.db, record res { duplicates = res.duplicates + 1 })
      else ok (s.db, record (accept res) { signals = with_signal s.signal res.signals })

  -- what counts for an item whose store does not
  pub plain : ProcessResult → Result D → Result (D × ProcessResult)
  plain res (err e) = err e
  plain res (ok db) = ok (db, res)

  -- the body of the loop over the items
  pub process_item : Moment → Kind → Item → D → ProcessResult → Result (D × ProcessResult)
  process_item m event item db res = tally res (stores.event m env item db)
  process_item m transaction item db res = tally res (stores.transaction m env item db)
  process_item m session item db res = plain (accept res) (stores.session m item db)
  process_item m sessions item db res = plain (accept res) (stores.sessions m item db)
  process_item m feedback item db res = plain (accept res) (stores.feedback m env item db)
  process_item m tolerated item db res = ok (db, record res { ignored = res.ignored + 1 })
  process_item m unknown item db res =
      plain (record res { unknown = res.unknown + 1 }) (stores.count_unknown m item.header.type db)

  -- the items from the n-th on; the clock and the generator of UUIDs move on from item to item
  pub process_items : (ℕ → Moment) → ℕ → List Item → D → ProcessResult → Result (D × ProcessResult)
  process_items moment n [] db res = ok (db, res)
  process_items moment n (item ∷ items) db res =
      elim (process_item (moment n) (kind_of item.header.type) item db res) [
        | err e ↦ err e
        | ok (db', res') ↦ process_items moment (suc n) items db' res'
      ]

  -- Process: the database after, and the result, where nothing failed; a failure rolls back
  pub process : (ℕ → Moment) → D → D × Result ProcessResult
  process moment db =
      elim (process_items moment 0 env.items db
        (record { accepted = 0; ignored = 0; unknown = 0; duplicates = 0; signals = [] })) [
          | err e ↦ (db, err e)
          | ok (db', res) ↦ (db', ok res)
        ]
