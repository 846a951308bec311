-- ===== src/Http/Access/Changes.antt =====
-- Who reaches the handler of a change.
use bug_han.Prelude.{
  ℕ, ◌≡◌, refl, true, false, Option, none, some, Bytes, codes, arith, ◌⊎◌, inl, inr, if◌then◌else◌,
  eqb, eqb_sound, is_empty, Bool-cases,
}
use bug_han.Ingest.Auth.{get}
use bug_han.Http.Access.{
  User, Accounts, Request, Context, text_or_empty, load_principal, rank, role_at_least, org_role,
  require_csrf, require_auth, require_write, require_role, and_then, require_admin_change,
  guard_loaded, guard_change,
}
use bug_han.Http.Access.Roles.{IsGranted, get-IsGranted}
use bug_han.Http.Access.Credentials.{IsBySession, IsByToken}
use bug_han.Http.Access.Principals.{HasPrincipal, MayLoad, load_principal-MayLoad}

-- the token of a request against cross-site forgery
abbrev pub csrf_token : Request → Bytes
csrf_token r = if is_empty r.csrf_header then r.csrf_field else r.csrf_header

and_then-none : (a b : Option ℕ) → and_then a b ≡ none → (a ≡ none) × (b ≡ none)
unfolding and_then
and_then-none none b e = (refl, e)
and_then-none (some status) b e = absurd (ground arith)

-- the roles of the rank of an administrator
rank-admin :
    (role : Bytes)
    → role_at_least role (codes "admin") ≡ true
    → (role ≡ codes "admin") ⊎ (role ≡ codes "owner")
unfolding role_at_least rank
rank-admin role h = elim (Bool-cases (eqb role (codes "admin"))) [
  | inl a ↦ inl (eqb_sound role _ a)
  | inr a ↦ elim (Bool-cases (eqb role (codes "owner"))) [
    | inl o ↦ inr (eqb_sound role _ o)
    | inr o ↦ absurd (ground arith)
  ]
]

administers-of :
    (o : Option Bytes)
    → role_at_least (text_or_empty o) (codes "admin") ≡ true
    → (role : Bytes) × ((o ≡ some role) × ((role ≡ codes "admin") ⊎ (role ≡ codes "owner")))
unfolding role_at_least rank
administers-of none h = absurd (ground arith)
administers-of (some role) h = (role, (refl, rank-admin role h))

csrf-confirmed :
    (r : Request) (user : Option User) (csrf scope : Bytes)
    → require_csrf r (record { user = user; csrf = csrf; scope = scope }) ≡ none
    → (is_empty csrf ≡ true) ⊎ (csrf_token r ≡ csrf)
unfolding require_csrf
csrf-confirmed r user csrf scope h = elim (Bool-cases (is_empty csrf)) [
  | inl e ↦ inl e
  | inr e ↦ elim (Bool-cases (eqb (csrf_token r) csrf)) [
    | inl s ↦ inr (eqb_sound (csrf_token r) csrf s)
    | inr s ↦ absurd (ground arith)
  ]
]

write-scope :
    (user : Option User) (csrf scope : Bytes)
    → require_write (record { user = user; csrf = csrf; scope = scope }) ≡ none
    → eqb scope (codes "read") ≡ false
unfolding require_write
write-scope user csrf scope h = ground arith

module _ (sha256 : Bytes → Bytes) (now : ℕ) (r : Request) (db : Accounts) where
  -- an administrator's or an owner's membership in the organization, a credential of the same user that
  -- may write, and for a session the token against forgery
  pub record IsAllowed (slug : Bytes) : Type 0 where
    pub user_id : Bytes
    pub csrf : Bytes
    pub scope : Bytes
    pub credential :
        IsBySession sha256 now r db user_id csrf ⊎ IsByToken sha256 now r db user_id scope
    pub writes : eqb scope (codes "read") ≡ false
    pub confirmed : (is_empty csrf ≡ true) ⊎ (csrf_token r ≡ csrf)
    pub role : Bytes
    pub administers : (role ≡ codes "admin") ⊎ (role ≡ codes "owner")
    pub member : IsGranted db user_id (slug, role)

  -- the handler is reached for a project that is there
  abbrev pub Reached : Option Bytes → Type 0
  Reached none = ⊥
  Reached (some slug) = IsAllowed slug

  passes-Reached :
      (project : Option Bytes) (user : Option User) (csrf scope : Bytes)
      → HasPrincipal sha256 now r db user csrf scope
      → require_csrf r (record { user = user; csrf = csrf; scope = scope }) ≡ none
      → require_write (record { user = user; csrf = csrf; scope = scope }) ≡ none
      → require_auth (record { user = user; csrf = csrf; scope = scope }) ≡ none
      → require_role (codes "admin") project (record { user = user; csrf = csrf; scope = scope })
        ≡ none
      → Reached project
  unfolding require_auth require_role org_role
  passes-Reached none user csrf scope p c w a m = ground arith
  passes-Reached (some slug) none csrf scope p c w a m = absurd (ground arith)
  passes-Reached (some slug) (some u) csrf scope p c w a m =
      let high : role_at_least (text_or_empty (get slug u.memberships)) (codes "admin") ≡ true =
        ground arith in
      let (role, (found, administers)) = administers-of (get slug u.memberships) high in
      record {
        user_id = p.user_id;
        csrf = csrf;
        scope = scope;
        credential = p.credential;
        writes = write-scope (some u) csrf scope w;
        confirmed = csrf-confirmed r (some u) csrf scope c;
        role = role;
        administers = administers;
        member = get-IsGranted db p.user_id slug role u.memberships p.memberships found;
      }

  change-Reached :
      (project : Option Bytes) (ctx : Context)
      → HasPrincipal sha256 now r db ctx.user ctx.csrf ctx.scope
      → require_admin_change r project ctx ≡ none
      → Reached project
  unfolding require_admin_change
  change-Reached project ctx p h =
      let csrf = and_then-none (require_csrf r ctx) _ h in
      let write = and_then-none (require_write ctx) _ csrf.1 in
      let auth = and_then-none (require_auth ctx) _ write.1 in
      passes-Reached project ctx.user ctx.csrf ctx.scope p csrf.0 write.0 auth.0 auth.1

  loaded-Reached :
      (project : Option Bytes) (o : Option Context)
      → MayLoad sha256 now r db o
      → guard_loaded r project o ≡ none
      → Reached project
  unfolding guard_loaded
  loaded-Reached project none p h = absurd (ground arith)
  loaded-Reached project (some ctx) p h = change-Reached project ctx p h

  -- A request that reaches the handler of a change of alert rules names a project that is there. It comes
  -- with a cookie whose digest stands in the row of a session of the user that has not expired, or with a
  -- bearer token whose digest stands in the row of a token of the user that is not revoked. The token's
  -- scope is not read-only, the request repeats the id of a session of the cookie where it has one, and
  -- the table of memberships has a row of that very user as an administrator or an owner of the
  -- organization whose slug, or id, is that of the project's organization.
  pub guard_change-Reached :
      (project : Option Bytes) → guard_change sha256 now r project db ≡ none → Reached project
  unfolding guard_change
  guard_change-Reached project h =
      loaded-Reached project (load_principal sha256 now r db).0
        (load_principal-MayLoad sha256 now r db) h
