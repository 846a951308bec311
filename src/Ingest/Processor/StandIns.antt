-- ===== src/Ingest/Processor/StandIns.antt =====
-- Stand-ins for the libraries of the processor, and tables without rows. Payloads stand for themselves:
-- an event's payload is its id, a timestamp is its length.
use bug_han.Prelude.{ℕ, some, none, [], Bytes, codes, length}
use bug_han.Prelude.Int.{pos, negsuc}
use bug_han.Ingest.Envelope.{Item}
use bug_han.Ingest.Payloads.{Libraries, Moment, EventPayload}
use bug_han.Ingest.Tables.{Tables}

abbrev pub event_payload : Bytes → EventPayload
event_payload id = record {
  event_id = id;
  timestamp = codes "10";
  platform = [];
  level = [];
  environment = [];
  release = codes "1.0";
  dist = [];
  message = codes "boom 42";
  tags = [];
  user = record { id = codes "u1"; email = []; username = []; ip = [] };
  trace = record { trace_id = []; span_id = []; status = [] };
}

abbrev pub stand_ins : Libraries
stand_ins = record {
  decode_event = λ b. some (event_payload b);
  decode_raw_event =
      λ b. some (record { message = codes "boom 42"; exceptions = []; fingerprint = [] });
  decode_transaction = λ b. none;
  decode_session = λ b. none;
  decode_aggregates = λ b. none;
  decode_feedback = λ b. some (record {
    event_id = codes "f1";
    timestamp = codes "11";
    message = codes "it broke";
    contact_email = [];
    name = [];
    url = [];
    associated_event_id = b;
  });
  decode_user_report = λ b. none;
  decode_string = λ b. none;
  decode_millis = λ b. some (pos (length b));
  decode_map = λ b. none;
  decode_pairs = λ b. none;
  unix_milli = λ t. t;
  parse_time = λ layout s. none;
  truncate_hour = λ t. pos 0;
  day_of = λ t. pos 0;
  parse_uuid = λ b. some b;
  sha256 = λ b. b;
  payload_timestamp = λ b. none;
  to_timestamp = λ b. pos 0;
  timestamptz = λ b. none;
}

abbrev pub item : Bytes → Bytes → Item
item type payload = record { header = record { type = type; length = negsuc 0 }; payload = payload }

abbrev pub moment : ℕ → Moment
moment n = record { now = pos n; fresh_uuid = codes "fresh" }

abbrev pub no_tables : Tables
no_tables = record {
  events = [];
  issues = record { issues = []; users = [] };
  event_rollups = [];
  project_rollups = [];
  transactions = [];
  sessions = record { sessions = []; rollups = [] };
  feedbacks = [];
  releases = [];
  unknown_items = [];
}
