-- ===== src/Auth/Sessions.antt =====
-- internal/auth/session.go: the sessions of browsers. The table auth_sessions is the state; a request is
-- its cookie. Time is in nanoseconds after 1970, and one request sees one time. The rules of the cookie
-- itself are the browser's.
pub mod Sliding
mod Tests
use bug_han.Prelude.{
  ℕ, ◌+◌, ◌-◌, Bool, true, false, not, ◌&&◌, Option, none, some, List, [], ◌∷◌, Bytes,
  if◌then◌else◌, ltb, eqb, is_empty,
}
use bug_han.Auth.Tokens.{hash_token}

-- sessionTTL
abbrev pub session_ttl : ℕ
session_ttl = 1_209_600_000_000_000

-- slidingWindow
abbrev pub sliding_window : ℕ
sliding_window = 86_400_000_000_000

-- a row of auth_sessions
pub record SessionRow : Type 0 where
  pub id : Bytes
  pub user_id : Bytes
  pub token_hash : Bytes
  pub expires_at : ℕ

-- `WHERE token_hash = $1 AND expires_at > now()`
unfoldable pub find_live : Bytes → ℕ → List SessionRow → Option SessionRow
find_live hash now [] = none
find_live hash now (r ∷ rows) =
    if eqb r.token_hash hash && ltb now r.expires_at then some r else find_live hash now rows

-- `UPDATE auth_sessions SET expires_at = $2 … WHERE token_hash = $1`
unfoldable pub slide : Bytes → ℕ → List SessionRow → List SessionRow
slide hash expires_at [] = []
slide hash expires_at (r ∷ rows) =
    (if eqb r.token_hash hash then record r { expires_at = expires_at } else r)
    ∷ slide hash expires_at rows

-- `DELETE FROM auth_sessions WHERE token_hash = $1`
pub delete_sessions : Bytes → List SessionRow → List SessionRow
delete_sessions hash [] = []
delete_sessions hash (r ∷ rows) =
    let rest = delete_sessions hash rows in if eqb r.token_hash hash then rest else r ∷ rest

module _ (sha256 : Bytes → Bytes) where
  -- Create, with the id of the row and the raw token that it sets as the cookie
  pub create : ℕ → Bytes → Bytes → Bytes → List SessionRow → List SessionRow
  create now user_id id raw rows =
      record {
        id = id;
        user_id = user_id;
        token_hash = hash_token sha256 raw;
        expires_at = now + session_ttl;
      }
      ∷ rows

  -- Lookup; the cookie is empty where there is none, and so is the user who is not signed in
  unfoldable pub lookup : ℕ → Bytes → List SessionRow → Bytes × List SessionRow
  lookup now cookie rows =
      let hash = hash_token sha256 cookie in
      if is_empty cookie then ([], rows) else elim (find_live hash now rows) [
        | none ↦ ([], rows)
        | some r ↦
            if ltb (r.expires_at - now) sliding_window
            then (r.user_id, slide hash (now + session_ttl) rows)
            else (r.user_id, rows)
      ]

  -- Destroy
  pub destroy : Bytes → List SessionRow → List SessionRow
  destroy cookie rows =
      if is_empty cookie then rows else delete_sessions (hash_token sha256 cookie) rows
