-- ===== src/Http/Ingest/Delivery.antt =====
-- What an envelope that the endpoint accepts went through.
use bug_han.Prelude.{ℕ, ◌≡◌, refl, Bytes, inl, inr, ◌⊎◌}
use bug_han.Ingest.Envelope
use bug_han.Ingest.Envelope.{Envelope, parse_envelope}
use bug_han.Ingest.Auth.Fresh.{HasUuids, IsCache}
use bug_han.Http.Ingest.{
  Request, Service, Arrival, Site, Response, failed, limited, accepted, read_ingest_body,
  request_key, process_for, admit, handle_envelope,
}
use bug_han.Http.Ingest.Guards.{
  IsUntouched, IsFailed, IsLimited, IsDelivered, Guarded, process_for-Does, admit-Guarded,
}

module _ (site : Site) (at_time : Arrival) where
  -- the envelope that the body holds, admitted with the key of the request
  pub record IsReceived (r : Request) (st st' : Service) : Type 0 where
    pub body : Bytes
    pub env : Envelope
    pub has_body : read_ingest_body site r ≡ inl body
    pub parsed : parse_envelope site.item_header site.envelope_header body ≡ Envelope.ok env
    pub delivered : IsDelivered site at_time r.project_id (request_key site r env) env st st'

  -- the key of the request, from its headers or from the header of the envelope that its body holds
  pub record IsKey (r : Request) (key : Bytes) : Type 0 where
    pub body : Bytes
    pub env : Envelope
    pub has_body : read_ingest_body site r ≡ inl body
    pub parsed : parse_envelope site.item_header site.envelope_header body ≡ Envelope.ok env
    pub key_of : request_key site r env ≡ key

  -- an error or a refusal, and what is counted for the key of the request
  abbrev Fails : Request → Service → Service → Type 0
  Fails r st st' =
      IsUntouched st st'
      × ((st'.counters ≡ st.counters)
          ⊎ ((key : Bytes) × IsKey r key × IsFailed site at_time r.project_id key st st'))

  abbrev Refuses : Request → Service → Service → Type 0
  Refuses r st st' = (key : Bytes) × IsKey r key × IsLimited site at_time r.project_id key st st'

  abbrev pub Handles : Request → Service → Response × Service → Type 0
  Handles r st (failed status, st') = Fails r st st'
  Handles r st (limited secs n, st') = Refuses r st st'
  Handles r st (accepted id n, st') = IsReceived r st st'

  abbrev pub Handled : Request → Service → Response × Service → Type 0
  Handled r st o = Handles r st o × IsCache site.key_of o.1.auth

  receives-Handled :
      (r : Request) (st : Service) (body : Bytes) (env : Envelope) (o : Response × Service)
      → read_ingest_body site r ≡ inl body
      → parse_envelope site.item_header site.envelope_header body ≡ Envelope.ok env
      → Guarded site at_time r.project_id (request_key site r env) env st o
      → Handled r st o
  receives-Handled r st body env (failed status, st') b e (g, c) = (
    (
      g.untouched,
      inr (
        request_key site r env,
        record { body = body; env = env; has_body = b; parsed = e; key_of = refl },
        g,
      ),
    ),
    c,
  )
  receives-Handled r st body env (limited secs n, st') b e (g, c) = (
    (
      request_key site r env,
      record { body = body; env = env; has_body = b; parsed = e; key_of = refl },
      g,
    ),
    c,
  )
  receives-Handled r st body env (accepted id n, st') b e (g, c) =
      (record { body = body; env = env; has_body = b; parsed = e; delivered = g }, c)

  parses-Handled :
      (r : Request) (st : Service) (body : Bytes) (o : Envelope.Result Envelope)
      → HasUuids site.key_of
      → IsCache site.key_of st.auth
      → read_ingest_body site r ≡ inl body
      → parse_envelope site.item_header site.envelope_header body ≡ o
      → Handled r st (elim o [
        | Envelope.err e ↦ (failed 400, st)
        | Envelope.ok env ↦
            admit site at_time r.project_id
              (request_key site r env)
              (process_for site at_time env env.header.event_id)
              st
      ])
  parses-Handled r st body (Envelope.err e) u c b p =
      ((record { tables = refl; jobs = refl }, inl refl), c)
  parses-Handled r st body (Envelope.ok env) u c b p = receives-Handled r st body env _ b p (
      admit-Guarded site at_time r.project_id (request_key site r env) env _ st u c
        (process_for-Does site at_time env env.header.event_id))

  reads-Handled :
      (r : Request) (st : Service) (o : Bytes ⊎ ℕ)
      → HasUuids site.key_of
      → IsCache site.key_of st.auth
      → read_ingest_body site r ≡ o
      → Handled r st (elim o [
        | inr status ↦ (failed status, st)
        | inl body ↦ elim (parse_envelope site.item_header site.envelope_header body) [
          | Envelope.err e ↦ (failed 400, st)
          | Envelope.ok env ↦
              admit site at_time r.project_id
                (request_key site r env)
                (process_for site at_time env env.header.event_id)
                st
        ]
      ])
  reads-Handled r st (inr status) u c b = ((record { tables = refl; jobs = refl }, inl refl), c)
  reads-Handled r st (inl body) u c b = parses-Handled r st body _ u c b refl

  -- Where the database has keys for pairs of uuids only, and the cache of keys holds what it said: the
  -- endpoint answers an error, leaves every table of the telemetry and the jobs as they are, and the quota
  -- has counted nothing, or the request alone for the project of its key, which it allowed; or it refuses,
  -- and leaves them as they are, since the quota of the project of its key, where it is counted, does not
  -- allow it; or it accepts, and then the body was read and parsed, the quota of the project of its key
  -- counted and allowed it, the tables are those after the envelope is processed for that project, and
  -- exactly its signals are enqueued for it. That the project is that of the key is what the database says
  -- of the project and the key of the request now, or said of them less than 30 seconds ago. The cache
  -- stays such a cache.
  pub handle_envelope-Handled :
      (r : Request) (st : Service)
      → HasUuids site.key_of
      → IsCache site.key_of st.auth
      → Handled r st (handle_envelope site at_time r st)
  unfolding handle_envelope
  handle_envelope-Handled r st u c = reads-Handled r st (read_ingest_body site r) u c refl
