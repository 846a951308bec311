-- ===== src/Http/Access/Principals.antt =====
-- What the context of a request tells of its principal.
use bug_han.Prelude.{
  ℕ, ◌≡◌, refl, sym, subst, Bool, true, false, if◌then◌else◌, Option, none, some, List, [], Bytes,
  codes, ◌⊎◌, inl, inr, is_empty, Bool-cases, All, has_prefix,
}
use bug_han.Auth.Tokens.{hash_token, valid_api_token_shape}
use bug_han.Auth.Sessions
use bug_han.Http.Access.{
  User, ApiToken, Accounts, Request, Context, nobody, member_rows, scan_member_rows, find_token,
  user_for_session, user_for_api_token, bearer_context, session_context, load_principal,
}
use bug_han.Http.Access.Credentials.{
  bearer_token, IsBySession, IsByToken, find_token-IsByToken, lookup-IsBySession,
}
use bug_han.Http.Access.Roles.{IsGranted, AreGranted, scan_member_rows-AreGranted}

module _ (sha256 : Bytes → Bytes) (now : ℕ) (r : Request) (db : Accounts) where
  -- the sessions after the cookie is looked up, and the user it belongs to
  abbrev pub looked_up : Bytes × List Sessions.SessionRow
  looked_up = Sessions.lookup sha256 now r.cookie db.sessions

  pub record IsPrincipal (u : User) (csrf scope : Bytes) : Type 0 where
    pub user_id : Bytes
    pub credential :
        IsBySession sha256 now r db user_id csrf ⊎ IsByToken sha256 now r db user_id scope
    pub memberships : All (IsGranted db user_id) u.memberships

  abbrev pub HasPrincipal : Option User → Bytes → Bytes → Type 0
  HasPrincipal none csrf scope = Unit {0}
  HasPrincipal (some u) csrf scope = IsPrincipal u csrf scope

  abbrev pub MayLoad : Option Context → Type 0
  MayLoad none = Unit {0}
  MayLoad (some ctx) = HasPrincipal ctx.user ctx.csrf ctx.scope

  -- a user with the scope of a token, and one with the token of a session
  abbrev ByToken : Option (User × Bytes) → Type 0
  ByToken none = Unit {0}
  ByToken (some (u, scope)) = IsPrincipal u [] scope

  abbrev BySession : Option (User × Bytes) → Type 0
  BySession none = Unit {0}
  BySession (some (u, csrf)) = IsPrincipal u csrf []

  scanned-ByToken :
      (t : ApiToken) (o : Option User)
      → IsByToken sha256 now r db t.user_id t.scope
      → AreGranted db t.user_id o
      → ByToken (elim o [ none ↦ none | some u ↦ some (u, t.scope) ])
  scanned-ByToken t none f g = tt
  scanned-ByToken t (some u) f g = record {
    user_id = t.user_id;
    credential = inr f;
    memberships = g;
  }

  tokens-ByToken :
      (o : Option ApiToken)
      → has_prefix r.authorization (codes "Bearer ") ≡ true
      → find_token (hash_token sha256 (bearer_token r)) db.tokens ≡ o
      → ByToken (elim o [
        | none ↦ none
        | some t ↦ elim (scan_member_rows (member_rows db t.user_id db.users)) [
          | none ↦ none
          | some u ↦ some (u, t.scope)
        ]
      ])
  tokens-ByToken none b f = tt
  tokens-ByToken (some t) b f =
      scanned-ByToken t (scan_member_rows (member_rows db t.user_id db.users))
        (find_token-IsByToken sha256 now r db t b f) (scan_member_rows-AreGranted db t.user_id)

  user_for_api_token-ByToken :
      has_prefix r.authorization (codes "Bearer ") ≡ true
      → ByToken (user_for_api_token sha256 db (bearer_token r))
  unfolding user_for_api_token
  user_for_api_token-ByToken b =
      tokens-ByToken (find_token (hash_token sha256 (bearer_token r)) db.tokens) b refl

  token_user-MayLoad :
      (o : Option (User × Bytes))
      → ByToken o
      → MayLoad (elim o [
        | none ↦ none
        | some (u, scope) ↦ some (record { user = some u; csrf = []; scope = scope })
      ])
  token_user-MayLoad none h = tt
  token_user-MayLoad (some (u, scope)) h = h

  bearer_context-MayLoad :
      has_prefix r.authorization (codes "Bearer ") ≡ true
      → MayLoad (bearer_context sha256 db (bearer_token r))
  unfolding bearer_context
  bearer_context-MayLoad b = elim (Bool-cases (valid_api_token_shape (bearer_token r))) [
    | inr v ↦ rw v tt
    | inl v ↦ rw v (token_user-MayLoad _ (user_for_api_token-ByToken b))
  ]

  scanned-BySession :
      (user_id csrf : Bytes) (o : Option User)
      → IsBySession sha256 now r db user_id csrf
      → AreGranted db user_id o
      → BySession (elim o [ none ↦ none | some u ↦ some (u, csrf) ])
  scanned-BySession user_id csrf none s g = tt
  scanned-BySession user_id csrf (some u) s g = record {
    user_id = user_id;
    credential = inl s;
    memberships = g;
  }

  -- the accounts after the cookie is looked up
  abbrev db_after : Accounts
  db_after = record db { sessions = looked_up.1 }

  user_for_session-BySession :
      is_empty looked_up.0 ≡ false
      → BySession (user_for_session sha256 db_after r.cookie looked_up.0)
  unfolding user_for_session
  user_for_session-BySession known =
      scanned-BySession looked_up.0 _ (scan_member_rows (member_rows db_after looked_up.0 db.users))
        (lookup-IsBySession sha256 now r db known)
        (scan_member_rows-AreGranted db_after looked_up.0)

  -- the context that is loaded
  abbrev Loads : Context → Type 0
  Loads ctx = HasPrincipal ctx.user ctx.csrf ctx.scope

  session_user-Loads :
      (o : Option (User × Bytes))
      → BySession o
      → Loads (elim o [
        | none ↦ nobody
        | some (u, csrf) ↦ record { user = some u; csrf = csrf; scope = [] }
      ])
  session_user-Loads none h = tt
  session_user-Loads (some (u, csrf)) h = h

  signed_out :
      is_empty looked_up.0 ≡ true → session_context sha256 db_after r.cookie looked_up.0 ≡ nobody
  unfolding session_context
  signed_out e = rw e refl

  signed_in_as :
      is_empty looked_up.0 ≡ false
      → session_context sha256 db_after r.cookie looked_up.0
        ≡ (elim (user_for_session sha256 db_after r.cookie looked_up.0) [
          | none ↦ nobody
          | some (u, csrf) ↦ record { user = some u; csrf = csrf; scope = [] }
        ])
  unfolding session_context
  signed_in_as e = rw e refl

  session_context-Loads : Loads (session_context sha256 db_after r.cookie looked_up.0)
  session_context-Loads = elim (Bool-cases (is_empty looked_up.0)) [
    | inl e ↦ subst Loads (sym (signed_out e)) tt
    | inr e ↦ subst Loads (sym (signed_in_as e)) (
        session_user-Loads (user_for_session sha256 db_after r.cookie looked_up.0)
          (user_for_session-BySession e))
  ]

  either-MayLoad :
      (b : Bool) (p q : Option Context × Accounts)
      → (b ≡ true → MayLoad p.0)
      → MayLoad q.0
      → MayLoad (if b then p else q).0
  either-MayLoad true p q f h = f refl
  either-MayLoad false p q f h = h

  pub load_principal-MayLoad : MayLoad (load_principal sha256 now r db).0
  unfolding load_principal
  load_principal-MayLoad =
      either-MayLoad (has_prefix r.authorization (codes "Bearer ")) _ _ bearer_context-MayLoad
        session_context-Loads
