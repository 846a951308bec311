-- ===== src/Ingest/Pipeline/Tests.antt =====
-- An envelope with a duplicate and an unknown item, over a database that logs what is stored.
use bug_han.Prelude.{ℕ, true, none, List, [], ◌∷◌, Bytes, codes}
use bug_han.Prelude.Int.{pos}
use bug_han.Ingest.Envelope.{Item, Envelope}
use bug_han.Ingest.Pipeline.{Stores, process}
use bug_han.Ingest.Payloads.{ok, err, bad_payload, Moment}
use bug_han.Ingest.Pipeline.Totals.{AllOrNothing, process-AllOrNothing}

abbrev item : Bytes → Item
item type = record { header = record { type = type; length = pos 0 }; payload = [] }

abbrev envelope : Envelope
envelope = record {
  header = record { event_id = []; dsn = [] };
  items =
      item (codes "event")
      ∷ item (codes "log")
      ∷ item (codes "strange")
      ∷ item (codes "session")
      ∷ [];
}

abbrev stores : Stores (List Bytes)
stores = record {
  event = λ m e i db. ok (record { db = db; duplicate = true; signal = none });
  transaction = λ m e i db. err bad_payload;
  session = λ m i db. ok (codes "session" ∷ db);
  sessions = λ m i db. ok db;
  feedback = λ m e i db. ok db;
  count_unknown = λ m t db. ok (t ∷ db);
}

abbrev noon : ℕ → Moment
noon n = record { now = pos 12; fresh_uuid = codes "u" }

process-AllOrNothing_example : AllOrNothing stores envelope [] (process stores envelope noon [])
process-AllOrNothing_example = process-AllOrNothing stores envelope noon []
