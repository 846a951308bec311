-- ===== src/Ingest/AuthHeader.antt =====
-- internal/ingest/auth.go: ParseXSentryAuth, which reads the key and the version of an X-Sentry-Auth header.
use bug_han.Prelude.{
  none, some, [], Bytes, codes, if◌then◌else◌, eqb, trim_prefix, trim_space, to_lower, split,
  cut_byte, foldl,
}

-- the body of the loop over the pairs: the key and the version after one more
pub read_pair : Bytes × Bytes → Bytes → Bytes × Bytes
read_pair (key, version) pair = elim (cut_byte b'=' pair) [
  | none ↦ (key, version)
  | some (k, val) ↦
      let name = to_lower (trim_space k) in
      if eqb name (codes "sentry_key")
      then (trim_space val, version)
      else if eqb name (codes "sentry_version")
      then (key, trim_space val)
      else (key, version)
]

-- ParseXSentryAuth
pub parse_x_sentry_auth : Bytes → Bytes × Bytes
parse_x_sentry_auth header =
    foldl read_pair ([], [])
      (split (trim_space (trim_prefix (trim_space header) (codes "Sentry"))) b',')
