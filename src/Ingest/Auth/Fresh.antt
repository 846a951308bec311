-- ===== src/Ingest/Auth/Fresh.antt =====
-- What the cache answers is no older than its lifetime, and it stays bounded.
use bug_han.Prelude.{
  ◌≤◌, ◌≡◌, refl, ◌∙◌, sym, subst, ◌||◌, Option, none, some, Bytes, arith, if◌then◌else◌, Lacks,
  true, ◌⊎◌, is_empty, length, All, Bool-cases, Option-cases, inl, inr,
}
use bug_han.Prelude.Int.{ℤ, ◌+ℤ◌, ltb_ℤ, ◌<ℤ◌, +ℤ_parts}
use bug_han.Ingest.Auth.{
  ProjectAuth, AuthEntry, AuthCache, ttl, get, cache_key, cached, refused, remember, resolve,
}
use bug_han.Ingest.Auth.Maps.{length-put_bounded, put_bounded-All, get-All, cache_key-apart}

-- a request without a project or without a key
pub record IsIncomplete (project_id sentry_key : Bytes) : Type 0 where
  pub missing : (is_empty project_id || is_empty sentry_key) ≡ true

module _ (db : ℤ → Bytes → Bytes → Option ProjectAuth) where
  -- the database has keys for pairs of uuids only, which hold no bar
  abbrev pub HasUuids : Type 0
  HasUuids =
      (t : ℤ) (p k : Bytes) (a : ProjectAuth) → db t p k ≡ some a → Lacks b'|' p × Lacks b'|' k

  -- the database gave this answer for a pair with this cache key, one lifetime before the entry expires
  pub record IsAnswer (e : Bytes × AuthEntry) : Type 0 where
    pub time : ℤ
    pub project_id : Bytes
    pub sentry_key : Bytes
    pub key : cache_key project_id sentry_key ≡ e.0
    pub answer : db time project_id sentry_key ≡ some e.1.auth
    pub expires : e.1.expires_at ≡ time +ℤ ttl

  -- the database refused a pair with this cache key, one lifetime before the refusal expires
  pub record IsRefusal (e : Bytes × ℤ) : Type 0 where
    pub time : ℤ
    pub project_id : Bytes
    pub sentry_key : Bytes
    pub key : cache_key project_id sentry_key ≡ e.0
    pub answer : db time project_id sentry_key ≡ none
    pub expires : e.1 ≡ time +ℤ ttl

  -- a cache of what the database said, with at most 10001 entries of either kind
  pub record IsCache (c : AuthCache) : Type 0 where
    pub answers : All IsAnswer c.entries
    pub refusals : All IsRefusal c.neg
    pub few : (length c.entries ≤ 10_001) × (length c.neg ≤ 10_001)

  -- what the database says of the pair now, or said within the lifetime
  pub record IsFresh (now : ℤ) (project_id sentry_key : Bytes) (o : Option ProjectAuth)
      : Type 0 where
    pub time : ℤ
    pub recent : now <ℤ time +ℤ ttl
    pub answer : db time project_id sentry_key ≡ o

  soon : (now : ℤ) → now <ℤ now +ℤ ttl
  soon now = omega (arith, +ℤ_parts now ttl)

  -- an answer that is fresh, or a refusal of a request without a project or a key
  abbrev pub Good : ℤ → Bytes → Bytes → Option ProjectAuth × AuthCache → Type 0
  Good now p k (o, c) = (IsFresh now p k o ⊎ IsIncomplete p k × (o ≡ none)) × IsCache c

  remember-Good :
      (now : ℤ) (p k : Bytes) (o : Option ProjectAuth) (c : AuthCache)
      → db now p k ≡ o
      → IsCache c
      → Good now p k (remember now (cache_key p k) o c)
  unfolding remember
  remember-Good now p k none c e h = (
    inl (record { time = now; recent = soon now; answer = e }),
    record {
      answers = h.answers;
      refusals =
          put_bounded-All IsRefusal (cache_key p k) _ c.neg
            (record {
              time = now;
              project_id = p;
              sentry_key = k;
              key = refl;
              answer = e;
              expires = refl;
            })
            h.refusals;
      few = (h.few.0, length-put_bounded (cache_key p k) (now +ℤ ttl) c.neg);
    },
  )
  remember-Good now p k (some a) c e h = (
    inl (record { time = now; recent = soon now; answer = e }),
    record {
      answers =
          put_bounded-All IsAnswer (cache_key p k) _ c.entries
            (record {
              time = now;
              project_id = p;
              sentry_key = k;
              key = refl;
              answer = e;
              expires = refl;
            })
            h.answers;
      refusals = h.refusals;
      few = (length-put_bounded (cache_key p k) _ c.entries, h.few.1);
    },
  )

  module _ (uuids : HasUuids) where
    -- a pair with the cache key of one that the database answers is that one
    answered-same :
        (t : ℤ) (p k p' k' : Bytes) (a : ProjectAuth)
        → db t p k ≡ some a
        → cache_key p k ≡ cache_key p' k'
        → db t p' k' ≡ some a
    answered-same t p k p' k' a e same =
        let (hp, hk) = uuids t p k a e in
        let (sp, sk) = cache_key-apart p k p' k' hp hk same in
        subst (λ x. db t x k' ≡ some a) sp (subst (λ x. db t p x ≡ some a) sk e)

    refused-same :
        (t : ℤ) (p k p' k' : Bytes)
        → db t p k ≡ none
        → cache_key p k ≡ cache_key p' k'
        → db t p' k' ≡ none
    refused-same t p k p' k' e same = elim (Option-cases (db t p' k')) [
      | inl n ↦ n
      | inr (a, s) ↦ absurd (cc (e, answered-same t p' k' p k a s (sym same)))
    ]

    entry-IsFresh :
        (now : ℤ) (p k : Bytes) (c : AuthCache) (a : ProjectAuth) (entry : AuthEntry)
        → IsCache c
        → get (cache_key p k) c.entries ≡ some entry
        → (if ltb_ℤ now entry.expires_at then some entry.auth else none) ≡ some a
        → IsFresh now p k (some a)
    entry-IsFresh now p k c a entry h found e = elim (Bool-cases (ltb_ℤ now entry.expires_at)) [
      | inr late ↦ absurd (cc (rw late at e))
      | inl alive ↦
          let i : IsAnswer (cache_key p k, entry) =
            get-All IsAnswer (cache_key p k) entry c.entries h.answers found in
          let before : now <ℤ entry.expires_at = ground arith in
          record {
            time = i.time;
            recent = subst (λ t. now <ℤ t) i.expires before;
            answer =
                answered-same i.time i.project_id i.sentry_key p k entry.auth i.answer i.key
                ∙ (rw alive at e);
          }
    ]

    cached-IsFresh :
        (now : ℤ) (p k : Bytes) (c : AuthCache) (a : ProjectAuth)
        → IsCache c
        → cached now (cache_key p k) c ≡ some a
        → IsFresh now p k (some a)
    unfolding cached
    cached-IsFresh now p k c a h e = elim (Option-cases (get (cache_key p k) c.entries)) [
      | inl missing ↦ absurd (cc (rw (missing, cached) at e))
      | inr (entry, found) ↦ entry-IsFresh now p k c a entry h found (rw (found, cached) at e)
    ]

    refused-IsFresh :
        (now : ℤ) (p k : Bytes) (c : AuthCache)
        → IsCache c
        → refused now (cache_key p k) c ≡ true
        → IsFresh now p k none
    unfolding refused
    refused-IsFresh now p k c h e = elim (Option-cases (get (cache_key p k) c.neg)) [
      | inl missing ↦ absurd (cc (rw (missing, refused) at e))
      | inr (until, found) ↦
          let i : IsRefusal (cache_key p k, until) =
            get-All IsRefusal (cache_key p k) until c.neg h.refusals found in
          let alive : ltb_ℤ now until ≡ true = rw (found, refused) at e in
          let before : now <ℤ until = ground (arith, alive) in
          record {
            time = i.time;
            recent = subst (λ t. now <ℤ t) i.expires before;
            answer = refused-same i.time i.project_id i.sentry_key p k i.answer i.key;
          }
    ]

    pub resolve-Good :
        (now : ℤ) (p k : Bytes) (c : AuthCache) → IsCache c → Good now p k (resolve db now p k c)
    unfolding resolve
    resolve-Good now p k c h = elim (Bool-cases (is_empty p || is_empty k)) [
      | inl e ↦ rw e (inr (record { missing = e }, refl), h)
      | inr e ↦ rw e (elim (Option-cases (cached now (cache_key p k) c)) [
        | inr (a, hit) ↦ rw hit (inl (cached-IsFresh now p k c a h hit), h)
        | inl miss ↦ rw miss (elim (Bool-cases (refused now (cache_key p k) c)) [
          | inl r ↦ rw r (inl (refused-IsFresh now p k c h r), h)
          | inr r ↦ rw r (remember-Good now p k (db now p k) c refl h)
        ])
      ])
    ]
