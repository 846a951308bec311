-- ===== src/Ingest/Pipeline/Invariants.antt =====
-- An invariant that every store keeps is kept by a whole envelope.
use bug_han.Prelude.{ℕ, suc, ◌≡◌, refl, All, List, [], ◌∷◌, Bytes, Bool-cases, inl, inr}
use bug_han.Ingest.Envelope.{Item, Envelope}
use bug_han.Ingest.Payloads.{Result, ok, err, Moment}
use bug_han.Ingest.Pipeline
use bug_han.Ingest.Pipeline.{
  ProcessResult, Stored, Stores, Kind, kind_of, tally, plain, process_item, process_items, process,
}

module _ {D : Type 0} (P : D → Type 0) where
  -- the invariant of a result, where there is one
  abbrev pub Keeps : Result D → Type 0
  Keeps (ok db) = P db
  Keeps (err e) = Unit {0}

  abbrev pub KeepsStored : Result (Stored D) → Type 0
  KeepsStored (ok s) = P s.db
  KeepsStored (err e) = Unit {0}

  abbrev KeepsCounted : Result (D × ProcessResult) → Type 0
  KeepsCounted (ok (db, res)) = P db
  KeepsCounted (err e) = Unit {0}

  abbrev KeepsPair : D × Result ProcessResult → Type 0
  KeepsPair (db, r) = P db

-- `Q` is what is asked of the items with counted sessions
module _ {D : Type 0} (P : D → Type 0) (Q : Item → Type 0) where
  abbrev pub Asked : Item → Type 0
  Asked item = kind_of item.header.type ≡ Pipeline.sessions → Q item

  -- every store keeps the invariant
  pub record ArePreserving (stores : Stores D) (env : Envelope) : Type 0 where
    pub event :
        (m : Moment) (item : Item) (db : D) → P db → KeepsStored P (stores.event m env item db)
    pub transaction :
        (m : Moment) (item : Item) (db : D)
        → P db
        → KeepsStored P (stores.transaction m env item db)
    pub session : (m : Moment) (item : Item) (db : D) → P db → Keeps P (stores.session m item db)
    pub sessions :
        (m : Moment) (item : Item) (db : D) → Q item → P db → Keeps P (stores.sessions m item db)
    pub feedback :
        (m : Moment) (item : Item) (db : D) → P db → Keeps P (stores.feedback m env item db)
    pub count_unknown :
        (m : Moment) (type : Bytes) (db : D) → P db → Keeps P (stores.count_unknown m type db)

  module _ (stores : Stores D) (env : Envelope) (preserving : ArePreserving stores env) where
    tally-Keeps :
        (res : ProcessResult) (r : Result (Stored D))
        → KeepsStored P r
        → KeepsCounted P (tally stores env res r)
    unfolding tally
    tally-Keeps res (err e) h = tt
    tally-Keeps res (ok s) h = elim (Bool-cases s.duplicate) [ inl d ↦ rw d h | inr d ↦ rw d h ]

    plain-Keeps :
        (res : ProcessResult) (r : Result D) → Keeps P r → KeepsCounted P (plain stores env res r)
    unfolding plain
    plain-Keeps res (err e) h = tt
    plain-Keeps res (ok db) h = h

    process_item-Keeps :
        (m : Moment) (k : Kind) (item : Item) (db : D) (res : ProcessResult)
        → (k ≡ Pipeline.sessions → Q item)
        → P db
        → KeepsCounted P (process_item stores env m k item db res)
    unfolding process_item
    process_item-Keeps m Pipeline.event item db res q h =
        tally-Keeps _ _ (preserving.event m item db h)
    process_item-Keeps m Pipeline.transaction item db res q h =
        tally-Keeps _ _ (preserving.transaction m item db h)
    process_item-Keeps m Pipeline.session item db res q h =
        plain-Keeps _ _ (preserving.session m item db h)
    process_item-Keeps m Pipeline.sessions item db res q h =
        plain-Keeps _ _ (preserving.sessions m item db (q refl) h)
    process_item-Keeps m Pipeline.feedback item db res q h =
        plain-Keeps _ _ (preserving.feedback m item db h)
    process_item-Keeps m Pipeline.tolerated item db res q h = h
    process_item-Keeps m Pipeline.unknown item db res q h =
        plain-Keeps _ _ (preserving.count_unknown m item.header.type db h)

    then-Keeps :
        (r : Result (D × ProcessResult)) (f : D → ProcessResult → Result (D × ProcessResult))
        → KeepsCounted P r
        → ((db : D) (res : ProcessResult) → P db → KeepsCounted P (f db res))
        → KeepsCounted P (elim r [ err e ↦ err e | ok (db', res') ↦ f db' res' ])
    then-Keeps (err e) f h k = tt
    then-Keeps (ok (db, res)) f h k = k db res h

    process_items-Keeps :
        (moment : ℕ → Moment) (n : ℕ) (items : List Item) (db : D) (res : ProcessResult)
        → All Asked items
        → P db
        → KeepsCounted P (process_items stores env moment n items db res)
    unfolding process_items
    process_items-Keeps moment n [] db res qs h = h
    process_items-Keeps moment n (item ∷ items) db res (q, qs) h =
        then-Keeps (process_item stores env (moment n) (kind_of item.header.type) item db res)
          (process_items stores env moment (suc n) items)
          (process_item-Keeps (moment n) (kind_of item.header.type) item db res q h)
          (λ db' res' h'. process_items-Keeps moment (suc n) items db' res' qs h')

    commits :
        (db : D) (r : Result (D × ProcessResult))
        → P db
        → KeepsCounted P r
        → KeepsPair P (elim r [ err e ↦ (db, err e) | ok (db', res) ↦ (db', ok res) ])
    commits db (err e) h k = h
    commits db (ok (db', res)) h k = k

    -- the database after an envelope, committed or rolled back
    pub process-Keeps :
        (moment : ℕ → Moment) (db : D)
        → All Asked env.items
        → P db
        → P (process stores env moment db).0
    unfolding process
    process-Keeps moment db qs h =
        commits db (process_items stores env moment 0 env.items db _) h
          (process_items-Keeps moment 0 env.items db _ qs h)
