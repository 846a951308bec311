-- ===== src/Ingest/Auth.antt =====
-- internal/ingest/auth.go: the cache in front of the lookup of ingest keys. The database is a
-- parameter, what it answers for a project and a key at a time; time is in nanoseconds.
pub mod Maps
pub mod Fresh
mod Tests
use bug_han.Prelude.{
  ℕ, zero, suc, ◌+◌, ◌<◌, Bool, true, false, not, ◌&&◌, ◌||◌, Option, none, some, List, [], ◌∷◌,
  ◌++◌, Bytes, if◌then◌else◌, ltb, eqb, is_empty, length,
}
use bug_han.Prelude.Int.{ℤ, pos, ◌+ℤ◌, ltb_ℤ}

-- ProjectAuth
pub record ProjectAuth : Type 0 where
  pub project_id : Bytes
  pub org_id : Bytes
  pub key_id : Bytes

-- authEntry
pub record AuthEntry : Type 0 where
  pub auth : ProjectAuth
  pub expires_at : ℤ

-- AuthCache, without its pool and its lock
pub record AuthCache : Type 0 where
  pub entries : List (Bytes × AuthEntry)
  pub neg : List (Bytes × ℤ)

-- the 30 seconds of NewAuthCache
abbrev pub ttl : ℤ
ttl = pos 30_000_000_000

-- Go maps from strings
unfoldable pub get {ℓ} : {A : Type ℓ} → Bytes → List (Bytes × A) → Option A
get k [] = none
get k ((j, a) ∷ m) = if eqb j k then some a else get k m

unfoldable pub put {ℓ} : {A : Type ℓ} → Bytes → A → List (Bytes × A) → List (Bytes × A)
put k a [] = (k, a) ∷ []
put k a ((j, b) ∷ m) = let rest = put k a m in if eqb j k then (j, a) ∷ m else (j, b) ∷ rest

-- `if len(m) > 10_000 { m = map… {} }; m[k] = a`
pub put_bounded {ℓ} : {A : Type ℓ} → Bytes → A → List (Bytes × A) → List (Bytes × A)
put_bounded k a m = put k a (if ltb 10_000 (length m) then [] else m)

-- `projectID + "|" + sentryKey`
pub cache_key : Bytes → Bytes → Bytes
cache_key project_id sentry_key = project_id ++ (b'|' ∷ sentry_key)

-- an entry that has not expired
pub cached : ℤ → Bytes → AuthCache → Option ProjectAuth
cached now ck c = elim (get ck c.entries) [
  | none ↦ none
  | some e ↦ if ltb_ℤ now e.expires_at then some e.auth else none
]

-- a refusal that has not expired
pub refused : ℤ → Bytes → AuthCache → Bool
refused now ck c = elim (get ck c.neg) [ none ↦ false | some t ↦ ltb_ℤ now t ]

-- the answer of the database, and the cache with it
pub remember : ℤ → Bytes → Option ProjectAuth → AuthCache → Option ProjectAuth × AuthCache
remember now ck none c = (none, record c { neg = put_bounded ck (now +ℤ ttl) c.neg })
remember now ck (some a) c = (
  some a,
  record c { entries = put_bounded ck (record { auth = a; expires_at = now +ℤ ttl }) c.entries },
)

-- Resolve: `none` is ErrAuth
pub resolve :
    (ℤ → Bytes → Bytes → Option ProjectAuth)
    → ℤ
    → Bytes
    → Bytes
    → AuthCache
    → Option ProjectAuth × AuthCache
resolve db now project_id sentry_key c =
    let ck = cache_key project_id sentry_key in
    let asked = remember now ck (db now project_id sentry_key) c in
    if is_empty project_id || is_empty sentry_key then (none, c) else elim (cached now ck c) [
      | some a ↦ (some a, c)
      | none ↦ if refused now ck c then (none, c) else asked
    ]
