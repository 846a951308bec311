-- ===== src/Lib.antt =====
-- BugHan is an error tracker: SDKs send envelopes of events, sessions and feedback, the server stores
-- them, groups errors into issues, maps minified frames to sources and sends alerts. This library
-- models the parts below; the rest of the repository is SQL, HTML and wiring, and is not modelled.
--
-- Prelude holds what the parts share: native numbers, Boolean tests, lists, byte strings, integers.
-- Text is a list of bytes, and white space and letter case are those of ASCII.
--
-- Hll models internal/hll/hll.go: the registers are a list of bytes, `insert_hash` is InsertHash,
-- `merge` is Merge, `marshal_binary` and `unmarshal_binary` are the codec. The rank loop takes 63
-- rounds of fuel, which its own bound on the rank makes enough. SHA-256 is a parameter. Estimate
-- computes in floating point and is not modelled.
--
-- SourceMap models internal/sourcemap: Vlq is vlq.go, Map is map.go, Symbolicate is symbolicate.go,
-- Paths and Resolve are resolve.go. An int64 is a bit pattern below 2 ^ 64 while it is computed and a
-- signed integer where it is read. The loops over the mappings take one unit of fuel for each byte of
-- the text, and the text gets shorter in each round. JSON, base64, percent decoding and net/url are
-- parameters. Event is event.go, with the files of releases and the column of the stored result as the
-- state; extract.go is not modelled: it uses regular
-- expressions.
--
-- Alerts models internal/alerts/alerts.go: `should_send` is Rule.ShouldSend, `normalize_emails` is
-- NormalizeEmails. Worker models internal/worker: Jobs is worker.go, with the jobs table as a list of
-- rows; Alerts is alerts.go, with the tables alert_dedupe and alert_deliveries as the state. Mail,
-- HTTP, handlers and the count of an issue's events are parameters. Draining the due jobs takes one
-- unit of fuel for each of them. Failures of the database are not modelled.
--
-- Ingest models internal/ingest. Envelope is envelope.go, with the JSON decoders of the two kinds of
-- headers as parameters and one unit of fuel for each byte of the text. Patterns and Grouping are
-- grouping.go, with the regular expressions as functions on bytes. Payloads holds the decoded payloads
-- and the helpers of pipeline.go, and the record Libraries of what the stores take from outside: JSON,
-- times, UUIDs, SHA-256 and what PostgreSQL reads in a payload. Tables is the record of the tables. The
-- stores of store.go are Events (storeEvent and storeTransaction), Issues (upsertIssue), Sessions
-- (storeSession, with the sketches of Hll in the rollups), Aggregates (storeSessionAggregates) and
-- Feedback (storeFeedback and the backfill). Pipeline is Process of pipeline.go over any stores, and
-- Processor is Process over these. An issue is named by its unique key, the project and the fingerprint,
-- where the database has an id. Auth and AuthHeader are auth.go, RateLimit is ratelimit.go, Decompress
-- is decompress.go over the decoders. Times are in nanoseconds. Durations of sessions and transactions
-- are floating point and left out. Counts that an SDK has aggregated are added as ints of 64 bits, and the
-- columns of such a rollup have the range of bigint. A statement succeeds unless its failure is named: the
-- quota's counter may fail, which lets the request pass.
--
-- Http.Ingest models internal/httpapi/ingest.go: `handle_envelope` and `handle_store` go from a request
-- through Decompress, Envelope, AuthHeader, Auth and RateLimit to Processor, and enqueue the jobs that
-- Worker.Jobs drains. CORS headers and the text of answers are left out.
--
-- Db.Migrate is Migrate of internal/db/migrate.go over the loaded migrations, with EnsurePartitions of
-- internal/db/partitions.go over the texts of the months; the execution of SQL is a parameter. Db.Partitions
-- is DropPartitions of the same file, Worker.Rollup is the window of a pass of internal/worker/rollup.go,
-- and Config is internal/config/config.go.
--
-- Http.Access models internal/httpapi/middleware.go, from the credentials of a request to its principal,
-- with the tables of accounts as the state, and the guards that internal/httpapi/alerts.go puts in front
-- of a change. Http.Rules is what stands behind these guards in alerts.go: `validate_rule_input` is
-- validateRuleInput, and `handle_change` is the handlers that create, replace and delete rules, with the
-- table alert_rules as the state. url.Parse, uuid.Parse, the reading of a uuid by the database and which
-- values it stores are parameters; the JSON of the answers is left out.
--
-- Auth models internal/auth: Tokens is tokens.go and Sessions is session.go, with the table of sessions as
-- the state.
--
-- The other HTTP handlers, password hashing, the performance store and the pages are not modelled: most of
-- them are queries and templates.
pub mod Prelude
pub mod Hll
pub mod SourceMap
pub mod Worker
pub mod Alerts
pub mod Ingest
pub mod Http
pub mod Auth
pub mod Db
pub mod Config
