-- ===== src/Ingest/Processor/Commits.antt =====
-- The processor commits an envelope as a whole or not at all.
use bug_han.Prelude.{ℕ, Bytes}
use bug_han.Ingest.Envelope.{Envelope}
use bug_han.Ingest.Payloads.{Libraries, Moment}
use bug_han.Ingest.Tables.{Tables}
use bug_han.Ingest.Pipeline.Totals.{AllOrNothing, process-AllOrNothing}
use bug_han.Ingest.Processor.{processor, process_envelope}

pub process_envelope-AllOrNothing :
    (lib : Libraries) (project_id : Bytes) (env : Envelope) (moment : ℕ → Moment) (db : Tables)
    → AllOrNothing (processor lib project_id) env db (process_envelope lib project_id env moment db)
unfolding process_envelope
process_envelope-AllOrNothing lib project_id env moment db =
    process-AllOrNothing (processor lib project_id) env moment db
