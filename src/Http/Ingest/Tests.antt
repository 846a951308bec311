-- ===== src/Http/Ingest/Tests.antt =====
-- Requests at a site with one key, over an empty service.
use bug_han.Prelude.{
  ◌≡◌, refl, Option, none, some, [], ◌∷◌, ◌++◌, Bytes, codes, eqb, ◌&&◌, if◌then◌else◌, arith,
  Lacks_by, Lacks, Bool-cases, inl, inr, subst, sym, eqb_sound, true, false,
}
use bug_han.Prelude.Int.{ℤ, pos, negsuc}
use bug_han.Ingest.Envelope.{ok, parse_envelope}
use bug_han.Ingest.Auth.{ProjectAuth}
use bug_han.Ingest.Auth.Fresh.{HasUuids, IsCache}
use bug_han.Ingest.Decompress.{Decoders}
use bug_han.Ingest.Processor.StandIns.{stand_ins, moment, no_tables}
use bug_han.Http.Ingest.{Request, Service, Arrival, Site, handle_envelope, store_envelope}
use bug_han.Http.Ingest.Delivery.{Handled, handle_envelope-Handled}
use bug_han.Http.Ingest.Legacy.{event_header, store_envelope-one_item}

-- a database with one key of one project
abbrev key_of : ℤ → Bytes → Bytes → Option ProjectAuth
key_of t p k =
    if eqb p (codes "7") && eqb k (codes "abc")
    then some (record { project_id = codes "7"; org_id = codes "1"; key_id = codes "abc" })
    else none

-- every body is plain
abbrev decoders : Decoders
decoders = record {
  gzip = λ r. none;
  zlib = λ b. none;
  flate = λ b. record { bytes = b; fails = false };
  brotli = λ r. r;
  zstd = λ r. none;
}

-- a header line is its event id, an item header line is its type
abbrev site : Site
site = record {
  max_event_bytes = pos 0;
  limit = pos 10;
  key_of = key_of;
  decoders = decoders;
  lib = stand_ins;
  envelope_header = λ b. some (record { event_id = b; dsn = [] });
  item_header = λ b.
      if eqb b (codes "{\"type\":\"event\"}")
      then some event_header
      else some (record { type = b; length = pos 0 });
  decode_object = λ b. some none;
  encode_object = λ o. codes "{}";
}

abbrev service : Service
service = record {
  auth = record { entries = []; neg = [] };
  counters = [];
  tables = no_tables;
  jobs = [];
}

abbrev request : Request
request = record {
  project_id = codes "7";
  sentry_key = [];
  glitchtip_key = [];
  x_sentry_auth = codes "Sentry sentry_version=7, sentry_key=abc";
  content_encoding = [];
  content_length = negsuc 0;
  body = record {
    bytes = codes "e1" ++ (b'\n' ∷ (codes "event" ++ (b'\n' ∷ codes "e1")));
    fails = false;
  };
}

abbrev arrival : Arrival
arrival = record { now = 5; counter_answers = true; moment = moment }

no_keys-IsCache : IsCache key_of (record { entries = []; neg = [] })
no_keys-IsCache = record { answers = tt; refusals = tt; few = (omega arith, omega arith) }

key_of-HasUuids : HasUuids key_of
key_of-HasUuids t p k a h = elim (Bool-cases (eqb p (codes "7"))) [
  | inr e ↦ absurd (cc (rw e at h))
  | inl e ↦ elim (Bool-cases (eqb k (codes "abc"))) [
    | inr f ↦ absurd (cc (rw (e, f) at h))
    | inl f ↦ (
      subst (Lacks b'|') (sym (eqb_sound p _ e)) (Lacks_by b'|' (codes "7") refl),
      subst (Lacks b'|') (sym (eqb_sound k _ f)) (Lacks_by b'|' (codes "abc") refl),
    )
  ]
]

handle_envelope-Handled_example :
    Handled site arrival request service (handle_envelope site arrival request service)
handle_envelope-Handled_example =
    handle_envelope-Handled site arrival request service key_of-HasUuids no_keys-IsCache

store_envelope-one_item_example :
    parse_envelope site.item_header site.envelope_header (store_envelope site none (codes "{}"))
    ≡ ok (record {
      header = record { event_id = codes "{}"; dsn = [] };
      items = record { header = event_header; payload = codes "{}" } ∷ [];
    })
store_envelope-one_item_example =
    store_envelope-one_item site none (record { event_id = codes "{}"; dsn = [] }) (codes "{}") refl
      (Lacks_by b'\n' (codes "{}") refl) refl refl (Lacks_by b'\n' (codes "{}") refl)
