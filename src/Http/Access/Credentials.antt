-- ===== src/Http/Access/Credentials.antt =====
-- What a request proves of its user: the row of a live session, or that of a token that is not revoked.
use bug_han.Prelude.{
  ℕ, ◌<◌, ◌≡◌, ◌+◌, ◌-◌, refl, sym, ap, eqb_refl, if◌then◌else◌, true, false, not, ◌&&◌, Option,
  none, some, List, [], ◌∷◌, Bytes, codes, arith, ltb, eqb, eqb_sound, is_empty, Bool-cases, inl,
  inr, Any, has_prefix, trim_prefix, trim_space, and_left, and_right,
}
use bug_han.Auth.Tokens.{hash_token}
use bug_han.Auth.Sessions
use bug_han.Auth.Sessions.{SessionRow, find_live, slide, session_ttl, sliding_window}
use bug_han.Http.Access.{ApiToken, Accounts, Request, find_token, session_id}

-- the token of a request that comes with one
abbrev pub bearer_token : Request → Bytes
bearer_token r = trim_space (trim_prefix r.authorization (codes "Bearer "))

module _ (sha256 : Bytes → Bytes) (now : ℕ) (r : Request) where
  -- the row of the cookie's session, which has not expired
  pub record IsLive (user_id : Bytes) (s : SessionRow) : Type 0 where
    pub hash : s.token_hash ≡ hash_token sha256 r.cookie
    pub alive : now < s.expires_at
    pub user : s.user_id ≡ user_id

  -- the row of the cookie's session, with the id that guards against forgery
  pub record IsGuard (csrf : Bytes) (s : SessionRow) : Type 0 where
    pub hash : s.token_hash ≡ hash_token sha256 r.cookie
    pub id : s.id ≡ csrf

  -- the row of the token that stands in the request
  pub record IsUsable (user_id scope : Bytes) (t : ApiToken) : Type 0 where
    pub hash : t.token_hash ≡ hash_token sha256 (bearer_token r)
    pub live : t.is_revoked ≡ false
    pub user : t.user_id ≡ user_id
    pub as_scope : t.scope ≡ scope

  find_live-IsLive :
      (rows : List SessionRow) (s : SessionRow)
      → find_live (hash_token sha256 r.cookie) now rows ≡ some s
      → Any (IsLive s.user_id) rows
  unfolding find_live
  find_live-IsLive [] s e = absurd (cc (e))
  find_live-IsLive (q ∷ rows) s e =
      elim (Bool-cases (eqb q.token_hash (hash_token sha256 r.cookie) && ltb now q.expires_at)) [
        | inr n ↦ inr (find_live-IsLive rows s (rw n at e))
        | inl y ↦
            let same : q ≡ s = cc (rw y at e) in
            let hash = and_left (eqb q.token_hash (hash_token sha256 r.cookie)) _ y in
            let alive : ltb now q.expires_at ≡ true =
              and_right (eqb q.token_hash (hash_token sha256 r.cookie)) _ y in
            inl (record {
              hash = eqb_sound q.token_hash _ hash;
              alive = ground (arith, alive);
              user = ap (λ x. x.user_id) same;
            })
      ]

  find_token-IsUsable :
      (tokens : List ApiToken) (t : ApiToken)
      → find_token (hash_token sha256 (bearer_token r)) tokens ≡ some t
      → Any (IsUsable t.user_id t.scope) tokens
  unfolding find_token
  find_token-IsUsable [] t e = absurd (cc (e))
  find_token-IsUsable (q ∷ tokens) t e =
      elim (Bool-cases
        (eqb q.token_hash (hash_token sha256 (bearer_token r)) && not q.is_revoked)) [
          | inr n ↦ inr (find_token-IsUsable tokens t (rw n at e))
          | inl y ↦
              let same : q ≡ t = cc (rw y at e) in
              let hash = and_left (eqb q.token_hash (hash_token sha256 (bearer_token r))) _ y in
              let alive : not q.is_revoked ≡ true =
                and_right (eqb q.token_hash (hash_token sha256 (bearer_token r))) _ y in
              inl (record {
                hash = eqb_sound q.token_hash _ hash;
                live = ground (arith, alive);
                user = ap (λ x. x.user_id) same;
                as_scope = ap (λ x. x.scope) same;
              })
        ]

  session_id-slide :
      (hash : Bytes) (until_time : ℕ) (rows : List SessionRow)
      → session_id hash (slide hash until_time rows) ≡ session_id hash rows
  unfolding session_id slide
  session_id-slide hash until_time [] = refl
  session_id-slide hash until_time (q ∷ rows) = elim (Bool-cases (eqb q.token_hash hash)) [
    | inl y ↦ rw (y, y) refl
    | inr n ↦ rw (n, n) (session_id-slide hash until_time rows)
  ]

  session_id-IsGuard :
      (rows : List SessionRow) (user_id csrf : Bytes)
      → Any (IsLive user_id) rows
      → session_id (hash_token sha256 r.cookie) rows ≡ csrf
      → Any (IsGuard csrf) rows
  unfolding session_id
  session_id-IsGuard [] user_id csrf a e = a
  session_id-IsGuard (q ∷ rows) user_id csrf (inl p) e =
      let y : eqb q.token_hash (hash_token sha256 r.cookie) ≡ true =
        rw (p.hash) (eqb_refl (hash_token sha256 r.cookie)) in
      inl (record { hash = p.hash; id = rw y at e })
  session_id-IsGuard (q ∷ rows) user_id csrf (inr a) e =
      elim (Bool-cases (eqb q.token_hash (hash_token sha256 r.cookie))) [
        | inl y ↦ inl (record { hash = eqb_sound q.token_hash _ y; id = rw y at e })
        | inr n ↦ inr (session_id-IsGuard rows user_id csrf a (rw n at e))
      ]

  -- the user came with the cookie of a live session, and its id guards against forgery
  pub record IsBySession (db : Accounts) (user_id csrf : Bytes) : Type 0 where
    pub given : is_empty r.cookie ≡ false
    pub live : Any (IsLive user_id) db.sessions
    pub guard : Any (IsGuard csrf) db.sessions

  -- the user came with an API token that is not revoked
  pub record IsByToken (db : Accounts) (user_id scope : Bytes) : Type 0 where
    pub bearer : has_prefix r.authorization (codes "Bearer ") ≡ true
    pub row : Any (IsUsable user_id scope) db.tokens

  pub find_token-IsByToken :
      (db : Accounts) (t : ApiToken)
      → has_prefix r.authorization (codes "Bearer ") ≡ true
      → find_token (hash_token sha256 (bearer_token r)) db.tokens ≡ some t
      → IsByToken db t.user_id t.scope
  find_token-IsByToken db t b e = record { bearer = b; row = find_token-IsUsable db.tokens t e }

  -- what the lookup of the cookie tells
  abbrev Found : List SessionRow → Bytes × List SessionRow → Type 0
  Found rows (user_id, rows') =
      is_empty user_id ≡ false
      → Any (IsLive user_id) rows
        × (session_id (hash_token sha256 r.cookie) rows'
            ≡ session_id (hash_token sha256 r.cookie) rows)

  live-Found :
      (rows : List SessionRow) (o : Option SessionRow)
      → find_live (hash_token sha256 r.cookie) now rows ≡ o
      → Found rows (elim o [
        | none ↦ ([], rows)
        | some s ↦
            if ltb (s.expires_at - now) sliding_window
            then (s.user_id, slide (hash_token sha256 r.cookie) (now + session_ttl) rows)
            else (s.user_id, rows)
      ])
  live-Found rows none e = λ known. absurd (ground arith)
  live-Found rows (some s) e = elim (Bool-cases (ltb (s.expires_at - now) sliding_window)) [
    | inl soon ↦ rw soon (λ known. (
      find_live-IsLive rows s e,
      session_id-slide (hash_token sha256 r.cookie) (now + session_ttl) rows,
    ))
    | inr late ↦ rw late (λ known. (find_live-IsLive rows s e, refl))
  ]

  lookup-Found :
      (rows : List SessionRow)
      → is_empty r.cookie ≡ false
      → Found rows (Sessions.lookup sha256 now r.cookie rows)
  unfolding Sessions.lookup
  lookup-Found rows given =
      rw given (live-Found rows (find_live (hash_token sha256 r.cookie) now rows) refl)

  lookup-given :
      (rows : List SessionRow)
      → is_empty (Sessions.lookup sha256 now r.cookie rows).0 ≡ false
      → is_empty r.cookie ≡ false
  unfolding Sessions.lookup
  lookup-given rows known = elim (Bool-cases (is_empty r.cookie)) [
    | inr given ↦ given
    | inl missing ↦ absurd (cc (rw missing at known))
  ]

  pub lookup-IsBySession :
      (db : Accounts)
      → is_empty (Sessions.lookup sha256 now r.cookie db.sessions).0 ≡ false
      → IsBySession db (Sessions.lookup sha256 now r.cookie db.sessions).0 (
          session_id
            (hash_token sha256 r.cookie)
            (Sessions.lookup sha256 now r.cookie db.sessions).1)
  lookup-IsBySession db known =
      let given = lookup-given db.sessions known in
      let (live, same) = lookup-Found db.sessions given known in
      record {
        given = given;
        live = live;
        guard = session_id-IsGuard db.sessions _ _ live (sym same);
      }
