-- ===== src/Ingest/Processor/Tests.antt =====
-- An envelope with an event, its feedback and the event again, over tables that are empty.
use bug_han.Ingest.Payloads.{Libraries, AggregatesPayload}
use bug_han.Prelude.Int.{pos, ◌+ℤ◌}
use bug_han.Ingest.Aggregates.Balanced.{Fits}
use bug_han.Ingest.Pipeline.Invariants.{Asked}
use bug_han.Prelude.{List, ◌≡◌, refl, some, subst, arith, All, [], ◌∷◌, codes}
use bug_han.Ingest.Envelope.{Item, Envelope}
use bug_han.Ingest.Processor.StandIns.{event_payload, stand_ins, item, moment, no_tables}
use bug_han.Ingest.Events.{store_event}
use bug_han.Ingest.Events.Reconcile.{no_events-Reconciles}
use bug_han.Ingest.Events.Redelivery.{IsRedelivered, store_event-IsRedelivered}
use bug_han.Ingest.Processor.{process_envelope}
use bug_han.Ingest.Processor.Consistent.{AreConsistent, HasFitting, process_envelope-AreConsistent}

abbrev envelope : Envelope
envelope = record {
  header = record { event_id = []; dsn = [] };
  items =
      item (codes "feedback") (codes "e1")
      ∷ item (codes "event") (codes "e1")
      ∷ item (codes "event") (codes "e1")
      ∷ item (codes "event") (codes "e2")
      ∷ item (codes "sessions") []
      ∷ item (codes "mystery") []
      ∷ [];
}

no_tables-AreConsistent : AreConsistent no_tables
no_tables-AreConsistent = record {
  reconciles = no_events-Reconciles no_tables refl refl refl refl;
  linked = record { linked = tt };
  balanced = record { balanced = tt };
}

abbrev counts : AggregatesPayload
counts = record {
  release = codes "1.0";
  environment = [];
  aggregates =
      record {
        started = codes "now";
        exited = pos 3;
        abnormal = pos 0;
        crashed = pos 1;
        errored = pos 2;
      }
      ∷ [];
}

-- libraries that read these counts in every payload
abbrev counting : Libraries
counting = record stand_ins {
  decode_aggregates = λ b. some counts;
  parse_time = λ layout s. some (pos 7);
}

counts-Fit : All Fits counts.aggregates
unfolding ◌+ℤ◌
counts-Fit = (record { sum = (omega arith, omega arith) }, tt)

all-HasFitting : (i : Item) → HasFitting counting (codes "p") i
all-HasFitting i s e =
    let same : counts ≡ s = cc (e) in
    subst (λ (p : AggregatesPayload). All Fits p.aggregates) same counts-Fit

all-Asked : (items : List Item) → All (Asked AreConsistent (HasFitting counting (codes "p"))) items
all-Asked [] = tt
all-Asked (i ∷ items) = (λ e. all-HasFitting i, all-Asked items)

process_envelope-AreConsistent_example :
    AreConsistent (process_envelope counting (codes "p") envelope moment no_tables).0
process_envelope-AreConsistent_example =
    process_envelope-AreConsistent counting (codes "p") envelope moment no_tables
      (all-Asked envelope.items) no_tables-AreConsistent

store_event-IsRedelivered_example :
    IsRedelivered stand_ins (moment 9) envelope (item (codes "event") (codes "e1")) (codes "p") (
      store_event stand_ins
        (moment 1)
        envelope
        (item (codes "event") (codes "e1"))
        (codes "p")
        no_tables)
store_event-IsRedelivered_example =
    store_event-IsRedelivered stand_ins (moment 1) (moment 9) envelope
      (item (codes "event") (codes "e1")) (codes "p") no_tables (event_payload (codes "e1")) refl
      refl
