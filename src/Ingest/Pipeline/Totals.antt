-- ===== src/Ingest/Pipeline/Totals.antt =====
-- Every item of an envelope is counted once, and a failure leaves the database as it was.
use bug_han.Prelude.{
  ℕ, suc, ◌+◌, ◌≤◌, ◌≡◌, refl, Option, none, some, List, [], ◌∷◌, arith, length, length-append,
  Bool-cases, inl, inr,
}
use bug_han.Ingest.Envelope.{Item, Envelope}
use bug_han.Ingest.Payloads.{Result, ok, err, Moment}
use bug_han.Ingest.Pipeline
use bug_han.Ingest.Pipeline.{
  AlertSignal, ProcessResult, Stored, Stores, Kind, kind_of, accept, with_signal, tally, plain,
  process_item, process_items, process,
}

-- the items that the counters account for, and no more signals than accepted items
abbrev total : ProcessResult → ℕ
total res = res.accepted + res.ignored + res.unknown + res.duplicates

length-with_signal :
    (o : Option AlertSignal) (signals : List AlertSignal)
    → length (with_signal o signals) ≤ length signals + 1
length-with_signal none signals = omega arith
length-with_signal (some s) signals = omega (arith, length-append signals (s ∷ []))

-- counters that account for `n` items
pub record Accounts (n : ℕ) (res : ProcessResult) : Type 0 where
  pub items : res.accepted + res.ignored + res.unknown + res.duplicates ≡ n
  pub signals : length res.signals ≤ res.accepted

module _ {D : Type 0} (stores : Stores D) (env : Envelope) where
  abbrev Adds : ℕ → Result (D × ProcessResult) → Type 0
  Adds n (ok (db, res)) = Accounts n res
  Adds n (err e) = Unit {0}

  tally-Adds :
      (n : ℕ) (res : ProcessResult) (r : Result (Stored D))
      → Accounts n res
      → Adds (suc n) (tally stores env res r)
  unfolding tally
  tally-Adds n res (err e) a = tt
  tally-Adds n res (ok s) a = elim (Bool-cases s.duplicate) [
    | inl d ↦ rw d (record { items = omega (arith, a.items); signals = a.signals })
    | inr d ↦ rw d (record {
      items = omega (arith, a.items);
      signals = omega (arith, a.signals, length-with_signal s.signal res.signals);
    })
  ]

  plain-Adds :
      (n : ℕ) (res : ProcessResult) (r : Result D)
      → Accounts n res
      → Adds n (plain stores env res r)
  unfolding plain
  plain-Adds n res (err e) a = tt
  plain-Adds n res (ok db) a = a

  process_item-Adds :
      (n : ℕ) (m : Moment) (k : Kind) (item : Item) (db : D) (res : ProcessResult)
      → Accounts n res
      → Adds (suc n) (process_item stores env m k item db res)
  unfolding process_item
  process_item-Adds n m Pipeline.event item db res a = tally-Adds n res _ a
  process_item-Adds n m Pipeline.transaction item db res a = tally-Adds n res _ a
  process_item-Adds n m Pipeline.session item db res a =
      plain-Adds (suc n) _ _
        (record { items = omega (arith, a.items); signals = omega (arith, a.signals) })
  process_item-Adds n m Pipeline.sessions item db res a =
      plain-Adds (suc n) _ _
        (record { items = omega (arith, a.items); signals = omega (arith, a.signals) })
  process_item-Adds n m Pipeline.feedback item db res a =
      plain-Adds (suc n) _ _
        (record { items = omega (arith, a.items); signals = omega (arith, a.signals) })
  process_item-Adds n m Pipeline.tolerated item db res a = record {
    items = omega (arith, a.items);
    signals = a.signals;
  }
  process_item-Adds n m Pipeline.unknown item db res a =
      plain-Adds (suc n) _ _ (record { items = omega (arith, a.items); signals = a.signals })

  then-Adds :
      (n m : ℕ) (r : Result (D × ProcessResult))
      (f : D → ProcessResult → Result (D × ProcessResult))
      → Adds n r
      → ((db : D) (res : ProcessResult) → Accounts n res → Adds m (f db res))
      → Adds m (elim r [ err e ↦ err e | ok (db', res') ↦ f db' res' ])
  then-Adds n m (err e) f a h = tt
  then-Adds n m (ok (db, res)) f a h = h db res a

  process_items-Adds :
      (moment : ℕ → Moment) (i n m : ℕ) (items : List Item) (db : D) (res : ProcessResult)
      → n + length items ≡ m
      → Accounts n res
      → Adds m (process_items stores env moment i items db res)
  unfolding process_items
  process_items-Adds moment i n m [] db res e a = record {
    items = omega (arith, a.items);
    signals = a.signals;
  }
  process_items-Adds moment i n m (item ∷ items) db res e a =
      then-Adds (suc n) m
        (process_item stores env (moment i) (kind_of item.header.type) item db res)
        (process_items stores env moment (suc i) items)
        (process_item-Adds n (moment i) (kind_of item.header.type) item db res a)
        (λ db' res' a'. process_items-Adds moment (suc i) (suc n) m items db' res' (omega arith) a')

  -- the database as it was, or counters that account for every item
  abbrev pub AllOrNothing : D → D × Result ProcessResult → Type 0
  AllOrNothing db (db', ok res) = Accounts (length env.items) res
  AllOrNothing db (db', err e) = db' ≡ db

  commits :
      (db : D) (r : Result (D × ProcessResult))
      → Adds (length env.items) r
      → AllOrNothing db (elim r [ err e ↦ (db, err e) | ok (db', res) ↦ (db', ok res) ])
  commits db (err e) a = refl
  commits db (ok (db', res)) a = a

  -- Processing an envelope either fails and leaves the database as it was, or counts every item once,
  -- as accepted, ignored, unknown or duplicate, and has at most one signal for each accepted one.
  pub process-AllOrNothing :
      (moment : ℕ → Moment) (db : D) → AllOrNothing db (process stores env moment db)
  unfolding process
  process-AllOrNothing moment db = commits db (process_items stores env moment 0 env.items db _) (
      process_items-Adds moment 0 0 (length env.items) env.items db _ (omega arith)
        (record { items = omega arith; signals = omega arith }))
