-- ===== src/Ingest/Events/Transactions.antt =====
-- A transaction changes its own table and the releases.
use bug_han.Prelude.{List, Bytes, Bool-cases, inl, inr}
use bug_han.Ingest.Envelope.{Item, Envelope}
use bug_han.Ingest.Payloads.{Libraries, Moment, Result, ok, err}
use bug_han.Ingest.Tables.{TransactionRow, ReleaseRow, Tables}
use bug_han.Ingest.Pipeline.Invariants.{KeepsStored}
use bug_han.Ingest.Events.{has_transaction, new_transaction, add_transaction, store_transaction}

module _ (lib : Libraries) (P : Tables → Type 0)
    (other : (transactions : List TransactionRow) (releases : List ReleaseRow) (db : Tables)
      → P db
      → P (record db { transactions = transactions; releases = releases })) where
  add_transaction-Keeps :
      (t : TransactionRow) (db : Tables) → P db → P (add_transaction lib t db).db
  unfolding add_transaction
  add_transaction-Keeps t db h =
      elim (Bool-cases (has_transaction t.id t.timestamp db.transactions)) [
        | inl there ↦ rw there h
        | inr new ↦ rw new (other _ _ db h)
      ]

  decodes-Keeps :
      (db : Tables) (r : Result TransactionRow)
      → P db
      → KeepsStored P (elim r [ err e ↦ err e | ok t ↦ ok (add_transaction lib t db) ])
  decodes-Keeps db (err e) h = tt
  decodes-Keeps db (ok t) h = add_transaction-Keeps t db h

  pub store_transaction-Keeps :
      (m : Moment) (env : Envelope) (item : Item) (project_id : Bytes) (db : Tables)
      → P db
      → KeepsStored P (store_transaction lib m env item project_id db)
  unfolding store_transaction
  store_transaction-Keeps m env item project_id db h =
      decodes-Keeps db (new_transaction lib m env item project_id) h
