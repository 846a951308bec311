-- ===== src/Http/Ingest/Guards.antt =====
-- Nothing is stored for a request unless its key is that of the project and its quota allows it.
use bug_han.Prelude.{
  ◌≡◌, refl, sym, subst, Bool, true, false, ◌⊎◌, Option, none, some, List, Bytes, if◌then◌else◌,
  Bool-cases, inl, inr,
}
use bug_han.Prelude.Int.{pos}
use bug_han.Ingest.Envelope.{Envelope}
use bug_han.Ingest.Auth.{ProjectAuth, AuthCache, resolve}
use bug_han.Ingest.Auth.Fresh.{HasUuids, IsCache, IsFresh, Good, resolve-Good}
use bug_han.Ingest.RateLimit.{Counter, Verdict, check}
use bug_han.Ingest.Payloads
use bug_han.Ingest.Payloads.{Result}
use bug_han.Ingest.Tables.{Tables}
use bug_han.Ingest.Pipeline.{ProcessResult}
use bug_han.Ingest.Pipeline.Totals.{AllOrNothing}
use bug_han.Ingest.Processor.{process_envelope, processor}
use bug_han.Ingest.Processor.Commits.{process_envelope-AllOrNothing}
use bug_han.Http.Ingest.{
  Service, Arrival, Site, Response, failed, limited, accepted, quota_seconds,
  enqueue_alert_evaluations, process_for, admit,
}

-- no table of the telemetry and no job has changed
pub record IsUntouched (st st' : Service) : Type 0 where
  pub tables : st'.tables ≡ st.tables
  pub jobs : st'.jobs ≡ st.jobs

module _ (site : Site) (at_time : Arrival) where
  -- the envelope was processed for the project, and each of its signals enqueued for it
  pub record IsStored (env : Envelope) (auth : ProjectAuth) (st st' : Service) : Type 0 where
    pub result : ProcessResult
    pub tables :
        process_envelope site.lib auth.project_id env at_time.moment st.tables
        ≡ (st'.tables, Payloads.ok result)
    pub jobs : st'.jobs ≡ enqueue_alert_evaluations result.signals auth.project_id st.jobs

  -- what is done for a project either stores the envelope or touches nothing
  abbrev pub Stores : Envelope → ProjectAuth → Service → Response × Service → Type 0
  Stores env auth st (failed status, st') = IsUntouched st st'
  Stores env auth st (limited secs n, st') = ⊥
  Stores env auth st (accepted id n, st') = IsStored env auth st st'

  -- and leaves the cache and the counters alone
  abbrev pub Does : Envelope → ProjectAuth → Service → Response × Service → Type 0
  Does env auth st r = Stores env auth st r × ((r.1.auth ≡ st.auth) × (r.1.counters ≡ st.counters))

  commits-Does :
      (env : Envelope) (id : Bytes) (auth : ProjectAuth) (st : Service)
      (p : Tables × Result ProcessResult)
      → process_envelope site.lib auth.project_id env at_time.moment st.tables ≡ p
      → AllOrNothing (processor site.lib auth.project_id) env st.tables p
      → Does env auth st (elim p.1 [
        | Payloads.err e ↦ (failed 400, record st { tables = p.0 })
        | Payloads.ok res ↦ (
          accepted id res.accepted,
          record st {
            tables = p.0;
            jobs = enqueue_alert_evaluations res.signals auth.project_id st.jobs;
          },
        )
      ])
  commits-Does env id auth st (db, Payloads.err e) h a =
      (record { tables = a; jobs = refl }, (refl, refl))
  commits-Does env id auth st (db, Payloads.ok res) h a =
      (record { result = res; tables = h; jobs = refl }, (refl, refl))

  pub process_for-Does :
      (env : Envelope) (id : Bytes) (auth : ProjectAuth) (st : Service)
      → Does env auth st (process_for site at_time env id auth st)
  unfolding process_for
  process_for-Does env id auth st =
      commits-Does env id auth st
        (process_envelope site.lib auth.project_id env at_time.moment st.tables) refl
        (process_envelope-AllOrNothing site.lib auth.project_id env at_time.moment st.tables)

  -- the check of the quota for a project
  abbrev pub checked : ProjectAuth → List Counter → Verdict × List Counter
  checked auth counters =
      check at_time.counter_answers site.limit at_time.now auth.project_id counters

  -- the request was counted against the quota of the project that the database gave for its key, now or
  -- less than 30 seconds before, with this verdict
  pub record IsCounted (project_id key : Bytes) (auth : ProjectAuth) (allowed : Bool)
      (st st' : Service) : Type 0 where
    pub fresh : IsFresh site.key_of (pos at_time.now) project_id key (some auth)
    pub verdict : (checked auth st.counters).0.allowed ≡ allowed
    pub counters : st'.counters ≡ (checked auth st.counters).1

  -- the quota has counted nothing, or the request alone
  abbrev pub MayCount : Bytes → Bytes → Service → Service → Type 0
  MayCount p k st st' =
      (st'.counters ≡ st.counters) ⊎ ((auth : ProjectAuth) × IsCounted p k auth true st st')

  -- an error: nothing is stored
  pub record IsFailed (project_id key : Bytes) (st st' : Service) : Type 0 where
    pub untouched : IsUntouched st st'
    pub counts : MayCount project_id key st st'

  -- a refusal by the quota: nothing is stored, and the request is counted
  pub record IsLimited (project_id key : Bytes) (st st' : Service) : Type 0 where
    pub auth : ProjectAuth
    pub counted : IsCounted project_id key auth false st st'
    pub untouched : IsUntouched st st'

  -- the tables after a request that is allowed are those of its envelope
  pub record IsDelivered (project_id key : Bytes) (env : Envelope) (st st' : Service) : Type 0 where
    pub auth : ProjectAuth
    pub counted : IsCounted project_id key auth true st st'
    pub stored : IsStored env auth st st'

  abbrev pub Answers : Bytes → Bytes → Envelope → Service → Response × Service → Type 0
  Answers p k env st (failed status, st') = IsFailed p k st st'
  Answers p k env st (limited secs n, st') = IsLimited p k st st'
  Answers p k env st (accepted id n, st') = IsDelivered p k env st st'

  abbrev pub Guarded : Bytes → Bytes → Envelope → Service → Response × Service → Type 0
  Guarded p k env st r = Answers p k env st r × IsCache site.key_of r.1.auth

  works-Answers :
      (p k : Bytes) (env : Envelope) (auth : ProjectAuth) (st : Service) (cache : AuthCache)
      (r : Response × Service)
      → IsFresh site.key_of (pos at_time.now) p k (some auth)
      → (checked auth st.counters).0.allowed ≡ true
      → Does env auth (record st { auth = cache; counters = (checked auth st.counters).1 }) r
      → Answers p k env st r
  works-Answers p k env auth st cache (failed status, st') f v (u, (_, counters)) = record {
    untouched = record { tables = u.tables; jobs = u.jobs };
    counts = inr (auth, record { fresh = f; verdict = v; counters = counters });
  }
  works-Answers p k env auth st cache (limited secs n, st') f v (u, _) = absurd u
  works-Answers p k env auth st cache (accepted id n, st') f v (s, (_, counters)) = record {
    auth = auth;
    counted = record { fresh = f; verdict = v; counters = counters };
    stored = record { result = s.result; tables = s.tables; jobs = s.jobs };
  }

  counts-Guarded :
      (p k : Bytes) (env : Envelope) (auth : ProjectAuth) (cache : AuthCache)
      (next : ProjectAuth → Service → Response × Service) (st : Service)
      → IsFresh site.key_of (pos at_time.now) p k (some auth)
      → IsCache site.key_of cache
      → ((st' : Service) → Does env auth st' (next auth st'))
      → Guarded p k env st (
          let v = checked auth st.counters in
          if v.0.allowed then next auth (record st { auth = cache; counters = v.1 }) else (
            limited (quota_seconds v.0.retry_after) v.0.remaining,
            record st { auth = cache; counters = v.1 },
          ))
  counts-Guarded p k env auth cache next st f c d =
      let st' : Service = record st { auth = cache; counters = (checked auth st.counters).1 } in
      elim (Bool-cases (checked auth st.counters).0.allowed) [
        | inl y ↦ rw y (
          works-Answers p k env auth st cache (next auth st') f y (d st'),
          subst (IsCache site.key_of) (sym (d st').1.0) c,
        )
        | inr n ↦ rw n (
          record {
            auth = auth;
            counted = record { fresh = f; verdict = n; counters = refl };
            untouched = record { tables = refl; jobs = refl };
          },
          c,
        )
      ]

  resolves-Guarded :
      (p k : Bytes) (env : Envelope) (next : ProjectAuth → Service → Response × Service)
      (st : Service) (o : Option ProjectAuth × AuthCache)
      → Good site.key_of (pos at_time.now) p k o
      → ((auth : ProjectAuth) (st' : Service) → Does env auth st' (next auth st'))
      → Guarded p k env st (elim o.0 [
        | none ↦ (failed 403, record st { auth = o.1 })
        | some auth ↦
            let (verdict, counters) = checked auth st.counters in
            let st' = record st { auth = o.1; counters = counters } in
            if verdict.allowed
            then next auth st'
            else (limited (quota_seconds verdict.retry_after) verdict.remaining, st')
      ])
  resolves-Guarded p k env next st (none, cache) (g, c) d =
      (record { untouched = record { tables = refl; jobs = refl }; counts = inl refl }, c)
  resolves-Guarded p k env next st (some auth, cache) (inl f, c) d =
      counts-Guarded p k env auth cache next st f c (d auth)
  resolves-Guarded p k env next st (some auth, cache) (inr (e, n), c) d = absurd (cc (n))

  pub admit-Guarded :
      (p k : Bytes) (env : Envelope) (next : ProjectAuth → Service → Response × Service)
      (st : Service)
      → HasUuids site.key_of
      → IsCache site.key_of st.auth
      → ((auth : ProjectAuth) (st' : Service) → Does env auth st' (next auth st'))
      → Guarded p k env st (admit site at_time p k next st)
  unfolding admit
  admit-Guarded p k env next st u c d =
      resolves-Guarded p k env next st (resolve site.key_of (pos at_time.now) p k st.auth)
        (resolve-Good site.key_of u (pos at_time.now) p k st.auth c) d
