-- ===== src/Http/Ingest.antt =====
-- internal/httpapi/ingest.go: the endpoints for SDKs, which authenticate a request, count it against the
-- quota of its project, store its envelope and enqueue the evaluation of alert rules. The decoders of
-- JSON and of bodies, the database behind the keys and the limits are parameters.
pub mod Guards
pub mod Delivery
pub mod Legacy
mod Tests
use bug_han.Prelude.{
  ℕ, ◌+◌, ◌/◌, Bool, true, false, Option, none, some, List, [], ◌∷◌, ◌++◌, map, Bytes, codes,
  if◌then◌else◌, ltb, is_empty, ◌⊎◌, inl, inr,
}
use bug_han.Prelude.Int.{ℤ, pos, negsuc, ◌+ℤ◌, ltb_ℤ}
use bug_han.Ingest.Envelope
use bug_han.Ingest.Envelope.{Header, ItemHeader, Envelope, dsn_public_key, parse_envelope}
use bug_han.Ingest.Auth.{ProjectAuth, AuthCache, resolve}
use bug_han.Ingest.AuthHeader.{parse_x_sentry_auth}
use bug_han.Ingest.RateLimit.{Counter, Verdict, check}
use bug_han.Ingest.Decompress.{
  Reader, Decoders, Body, read, unread, BodyError, bad_decoder, read_failed, too_large, unsupported,
  decompress,
}
use bug_han.Ingest.Payloads
use bug_han.Ingest.Payloads.{Libraries, Moment, or_else}
use bug_han.Ingest.Tables.{Tables}
use bug_han.Ingest.Pipeline.{AlertSignal, ProcessResult}
use bug_han.Ingest.Processor.{process_envelope}

-- what the handlers read of a request
pub record Request : Type 0 where
  pub project_id : Bytes
  pub sentry_key : Bytes
  pub glitchtip_key : Bytes
  pub x_sentry_auth : Bytes
  pub content_encoding : Bytes
  pub content_length : ℤ
  pub body : Reader

-- a job of the kind alert_evaluate
pub record AlertJob : Type 0 where
  pub project_id : Bytes
  pub signal : AlertSignal

-- what the handlers change
pub record Service : Type 0 where
  pub auth : AuthCache
  pub counters : List Counter
  pub tables : Tables
  pub jobs : List AlertJob

-- when a request comes: the nanoseconds after 1970, whether the database answers the limiter, and what
-- the clock shows from item to item
pub record Arrival : Type 0 where
  pub now : ℕ
  pub counter_answers : Bool
  pub moment : ℕ → Moment

-- the configuration and the libraries
pub record Site : Type 0 where
  pub max_event_bytes : ℤ
  pub limit : ℤ
  pub key_of : ℤ → Bytes → Bytes → Option ProjectAuth
  pub decoders : Decoders
  pub lib : Libraries
  pub envelope_header : Bytes → Option Header
  pub item_header : Bytes → Option ItemHeader
  -- the raw event_id of a JSON object, and the object of a raw event_id
  pub decode_object : Bytes → Option (Option Bytes)
  pub encode_object : Option Bytes → Bytes

pub data Response : Type 0 where
  -- an error with its status
  failed : ℕ → Response
  -- 429 with the seconds of Retry-After and what remains
  limited : ℕ → ℕ → Response
  -- 200 with the id and the number of accepted items
  accepted : Bytes → ℕ → Response

-- the default of readIngestBody, 20 << 20
pub max_bytes_of : ℤ → ℕ
max_bytes_of (negsuc n) = 20_971_520
max_bytes_of (pos n) = if ltb 0 n then n else 20_971_520

-- the status of a body that is unread
pub status_of : BodyError → ℕ
status_of too_large = 413
status_of bad_decoder = 400
status_of read_failed = 400
status_of unsupported = 400

-- the seconds of QuotaHeaders, rounded
pub quota_seconds : ℕ → ℕ
quota_seconds retry_after =
    let secs = (retry_after + 500_000_000) / 1_000_000_000 in if ltb secs 1 then 1 else secs

-- enqueueAlertEvaluations
pub enqueue_alert_evaluations : List AlertSignal → Bytes → List AlertJob → List AlertJob
enqueue_alert_evaluations signals project_id jobs =
    jobs ++ map (λ s. record { project_id = project_id; signal = s }) signals

module _ (site : Site) where
  -- readIngestBody: the body, or the status of the answer
  pub read_ingest_body : Request → Bytes ⊎ ℕ
  read_ingest_body r =
      let max_bytes = max_bytes_of site.max_event_bytes in
      if ltb_ℤ (pos (max_bytes + 65_536)) r.content_length
      then inr 413
      else elim (decompress site.decoders r.body r.content_encoding max_bytes) [
        | read body ↦ inl body
        | unread e ↦ inr (status_of e)
      ]

  -- the key of the request, for the two endpoints
  pub request_key : Request → Envelope → Bytes
  request_key r env = or_else r.sentry_key (
      or_else r.glitchtip_key
        (or_else (parse_x_sentry_auth r.x_sentry_auth).0 (dsn_public_key env.header)))

  pub store_key : Request → Bytes
  store_key r = or_else r.sentry_key (parse_x_sentry_auth r.x_sentry_auth).0

  -- Process for an admitted project, and the jobs of its signals
  pub process_for : Arrival → Envelope → Bytes → ProjectAuth → Service → Response × Service
  process_for at_time env id auth st =
      let (db, r) = process_envelope site.lib auth.project_id env at_time.moment st.tables in
      elim r [
        | Payloads.err e ↦ (failed 400, record st { tables = db })
        | Payloads.ok res ↦ (
          accepted id res.accepted,
          record st {
            tables = db;
            jobs = enqueue_alert_evaluations res.signals auth.project_id st.jobs;
          },
        )
      ]

  -- the two guards, Resolve and Check, in front of what is done for the project
  pub admit :
      Arrival
      → Bytes
      → Bytes
      → (ProjectAuth → Service → Response × Service)
      → Service
      → Response × Service
  admit at_time project_id key next st =
      let (found, cache) = resolve site.key_of (pos at_time.now) project_id key st.auth in
      elim found [
        | none ↦ (failed 403, record st { auth = cache })
        | some auth ↦
            let (verdict, counters) =
              check at_time.counter_answers site.limit at_time.now auth.project_id st.counters in
            let st' = record st { auth = cache; counters = counters } in
            if verdict.allowed
            then next auth st'
            else (limited (quota_seconds verdict.retry_after) verdict.remaining, st')
      ]

  -- handleEnvelope
  pub handle_envelope : Arrival → Request → Service → Response × Service
  handle_envelope at_time r st = elim (read_ingest_body r) [
    | inr status ↦ (failed status, st)
    | inl body ↦ elim (parse_envelope site.item_header site.envelope_header body) [
      | Envelope.err e ↦ (failed 400, st)
      | Envelope.ok env ↦
          admit at_time r.project_id (request_key r env)
            (process_for at_time env env.header.event_id) st
    ]
  ]

  -- the synthetic envelope
  pub store_envelope : Option Bytes → Bytes → Bytes
  store_envelope event_id body =
      site.encode_object event_id ++ (b'\n' ∷ (codes "{\"type\":\"event\"}" ++ (b'\n' ∷ body)))

  -- the id in the answer
  pub store_id : Option Bytes → Bytes
  store_id none = []
  store_id (some raw) = elim (site.lib.decode_string raw) [ none ↦ [] | some s ↦ s ]

  -- what handleStore does for the project
  pub store_for : Arrival → Option Bytes → Bytes → ProjectAuth → Service → Response × Service
  store_for at_time event_id body auth st =
      elim (parse_envelope site.item_header site.envelope_header (store_envelope event_id body)) [
        | Envelope.err e ↦ (failed 400, st)
        | Envelope.ok env ↦ process_for at_time env (store_id event_id) auth st
      ]

  -- handleStore
  pub handle_store : Arrival → Request → Service → Response × Service
  handle_store at_time r st = elim (read_ingest_body r) [
    | inr status ↦ (failed status, st)
    | inl body ↦ elim (site.decode_object body) [
      | none ↦ (failed 400, st)
      | some event_id ↦
          admit at_time r.project_id (store_key r) (store_for at_time event_id body) st
    ]
  ]
