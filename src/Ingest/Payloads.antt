-- ===== src/Ingest/Payloads.antt =====
-- internal/ingest/pipeline.go: what the items of an envelope hold, and the fields that the stores share.
-- The decoders of JSON, the parsers of times and UUIDs, SHA-256 and what PostgreSQL reads in a payload
-- are parameters. Time is in nanoseconds.
use bug_han.Prelude.{
  ◌&&◌, Option, none, some, List, [], ◌∷◌, Bytes, codes, if◌then◌else◌, is_empty, to_lower, take,
  foldl,
}
use bug_han.Prelude.Int.{ℤ}
use bug_han.Ingest.Envelope.{Envelope}
use bug_han.Ingest.Sessions
use bug_han.Ingest.Auth.{put}
use bug_han.Ingest.Grouping.{RawEvent, hex}

-- the user of eventPayload
pub record User : Type 0 where
  pub id : Bytes
  pub email : Bytes
  pub username : Bytes
  pub ip : Bytes

-- the trace context of eventPayload, as far as it is read
pub record Trace : Type 0 where
  pub trace_id : Bytes
  pub span_id : Bytes
  pub status : Bytes

-- eventPayload, without the attributes that nothing reads; the timestamp and the tags are raw JSON
pub record EventPayload : Type 0 where
  pub event_id : Bytes
  pub timestamp : Bytes
  pub platform : Bytes
  pub level : Bytes
  pub environment : Bytes
  pub release : Bytes
  pub dist : Bytes
  pub message : Bytes
  pub tags : Bytes
  pub user : User
  pub trace : Trace

-- the payload of storeTransaction
pub record TransactionPayload : Type 0 where
  pub event : EventPayload
  pub start_timestamp : Bytes
  pub transaction : Bytes
  pub source : Bytes
  pub measurements : Bytes

-- an entry of `aggregates`
pub record Aggregate : Type 0 where
  pub started : Bytes
  pub exited : ℤ
  pub abnormal : ℤ
  pub crashed : ℤ
  pub errored : ℤ

-- the payload of storeSessionAggregates
pub record AggregatesPayload : Type 0 where
  pub release : Bytes
  pub environment : Bytes
  pub aggregates : List Aggregate

-- the payload of a `feedback` item
pub record FeedbackPayload : Type 0 where
  pub event_id : Bytes
  pub timestamp : Bytes
  pub message : Bytes
  pub contact_email : Bytes
  pub name : Bytes
  pub url : Bytes
  pub associated_event_id : Bytes

-- the payload of a `user_report` item
pub record UserReport : Type 0 where
  pub event_id : Bytes
  pub email : Bytes
  pub name : Bytes
  pub comments : Bytes

-- why an item is refused
pub data Failure : Type 0 where
  bad_payload missing_event_id bad_event_id bad_timestamp bad_event : Failure
  missing_start_timestamp ends_before_start : Failure
  bad_session : Sessions.SessionError → Failure
  too_many_aggregates aggregate_missing_started bad_aggregate_started : Failure
  missing_message not_feedback aborted : Failure

pub data Result {ℓ} (A : Type ℓ) : Type ℓ where
  ok : A → Result A
  err : Failure → Result A

-- what the clock shows and which UUID is fresh while one item is stored
pub record Moment : Type 0 where
  pub now : ℤ
  pub fresh_uuid : Bytes

pub record Libraries : Type 0 where
  pub decode_event : Bytes → Option EventPayload
  pub decode_raw_event : Bytes → Option RawEvent
  pub decode_transaction : Bytes → Option TransactionPayload
  pub decode_session : Bytes → Option Sessions.Payload
  pub decode_aggregates : Bytes → Option AggregatesPayload
  pub decode_feedback : Bytes → Option FeedbackPayload
  pub decode_user_report : Bytes → Option UserReport
  -- a JSON string, and a JSON number times 1000 as an integer
  pub decode_string : Bytes → Option Bytes
  pub decode_millis : Bytes → Option ℤ
  -- a JSON object of strings, and an array of objects with a key and a value
  pub decode_map : Bytes → Option (List (Bytes × Bytes))
  pub decode_pairs : Bytes → Option (List (Bytes × Bytes))
  -- time.UnixMilli, time.Parse with its layout, Truncate(time.Hour), and the day of CURRENT_DATE
  pub unix_milli : ℤ → ℤ
  pub parse_time : Bytes → Bytes → Option ℤ
  pub truncate_hour : ℤ → ℤ
  pub day_of : ℤ → ℤ
  pub parse_uuid : Bytes → Option Bytes
  pub sha256 : Bytes → Bytes
  -- `payload->>'timestamp'`, to_timestamp of a number, and the cast to timestamptz, which may fail
  pub payload_timestamp : Bytes → Option Bytes
  pub to_timestamp : Bytes → ℤ
  pub timestamptz : Bytes → Option ℤ

-- the layout time.RFC3339Nano
abbrev pub rfc3339_nano : Bytes
rfc3339_nano = codes "2006-01-02T15:04:05.999999999Z07:00"

abbrev pub rfc3339 : Bytes
rfc3339 = codes "2006-01-02T15:04:05Z07:00"

-- a text, or the default where it is empty
abbrev pub or_else : Bytes → Bytes → Bytes
or_else s d = if is_empty s then d else s

-- the identity that userHash hashes
pub identity_of : User → Bytes
identity_of u = or_else u.id (or_else u.email (or_else u.username u.ip))

module _ (lib : Libraries) where
  -- `for _, layout := range …`
  pub parse_layouts : List Bytes → Bytes → Option ℤ
  parse_layouts [] s = none
  parse_layouts (layout ∷ layouts) s = elim (lib.parse_time layout s) [
    | some t ↦ some t
    | none ↦ parse_layouts layouts s
  ]

  -- parseTimestamp
  pub parse_timestamp : Bytes → Option ℤ
  parse_timestamp raw = if is_empty raw then none else elim (lib.decode_string raw) [
    | some s ↦ parse_layouts (rfc3339_nano ∷ rfc3339 ∷ codes "2006-01-02T15:04:05" ∷ []) s
    | none ↦ elim (lib.decode_millis raw) [ some ms ↦ some (lib.unix_milli ms) | none ↦ none ]
  ]

  -- eventIDFrom
  pub event_id_from : Envelope → EventPayload → Result Bytes
  event_id_from env payload =
      let given = or_else env.header.event_id payload.event_id in
      if is_empty given
      then err missing_event_id
      else elim (lib.parse_uuid (to_lower given)) [ none ↦ err bad_event_id | some id ↦ ok id ]

  -- the first half of a digest, in hexadecimal
  pub short_hash : Bytes → Bytes
  short_hash s = hex (take 16 (lib.sha256 s))

  -- userHash
  pub user_hash : User → Bytes
  user_hash u =
      if is_empty u.id && (is_empty u.email && (is_empty u.username && is_empty u.ip))
      then []
      else short_hash (identity_of u)

  -- `out[kv.Key] = kv.Value`
  pub add_tag : List (Bytes × Bytes) → Bytes × Bytes → List (Bytes × Bytes)
  add_tag tags (k, v) = put k v tags

  -- parseTags
  pub parse_tags : Bytes → List (Bytes × Bytes)
  parse_tags raw = if is_empty raw then [] else elim (lib.decode_map raw) [
    | some m ↦ m
    | none ↦ elim (lib.decode_pairs raw) [ some pairs ↦ foldl add_tag [] pairs | none ↦ [] ]
  ]

  -- a trace id that is a UUID
  pub trace_id_of : Trace → Option Bytes
  trace_id_of t = if is_empty t.trace_id then none else lib.parse_uuid t.trace_id

  -- the time of a payload, the clock's where it has none
  unfoldable pub timestamp_of : Moment → EventPayload → Option ℤ
  timestamp_of m payload =
      if is_empty payload.timestamp then some m.now else parse_timestamp payload.timestamp
