-- ===== src/Http/Access.antt =====
-- internal/httpapi/middleware.go: the principal of a request, and the guards in front of the handlers,
-- as internal/httpapi/alerts.go chains them. The tables of accounts are the state; the last use of a
-- token, which nothing here reads, is left out.
pub mod Roles
pub mod Credentials
pub mod Principals
pub mod Changes
mod Tests
use bug_han.Prelude.{
  ℕ, Bool, true, false, not, ◌&&◌, ◌||◌, Option, none, some, List, [], ◌∷◌, ◌++◌, Bytes, codes,
  if◌then◌else◌, leb, eqb, is_empty, has_prefix, trim_prefix, trim_space, foldl,
}
use bug_han.Ingest.Auth.{get, put}
use bug_han.Auth.Tokens.{hash_token, valid_api_token_shape}
use bug_han.Auth.Sessions
use bug_han.Auth.Sessions.{SessionRow}

-- auth.User
pub record User : Type 0 where
  pub id : Bytes
  pub email : Bytes
  pub name : Bytes
  pub memberships : List (Bytes × Bytes)

-- memberRow
pub record MemberRow : Type 0 where
  pub id : Bytes
  pub email : Bytes
  pub name : Bytes
  pub org_id : Bytes
  pub role : Bytes
  pub org_slug : Bytes

-- the rows of users, memberships, organizations and api_tokens
pub record UserRow : Type 0 where
  pub id : Bytes
  pub email : Bytes
  pub name : Bytes

pub record Membership : Type 0 where
  pub user_id : Bytes
  pub org_id : Bytes
  pub role : Bytes

pub record ApiToken : Type 0 where
  pub token_hash : Bytes
  pub user_id : Bytes
  pub scope : Bytes
  pub is_revoked : Bool

pub record Accounts : Type 0 where
  pub users : List UserRow
  pub memberships : List Membership
  -- the slugs of the organizations by their ids
  pub organizations : List (Bytes × Bytes)
  pub tokens : List ApiToken
  pub sessions : List SessionRow

-- what the guards read of a request; the cookie is empty where there is none
pub record Request : Type 0 where
  pub authorization : Bytes
  pub cookie : Bytes
  pub csrf_header : Bytes
  pub csrf_field : Bytes

-- what the context of a request carries
pub record Context : Type 0 where
  pub user : Option User
  pub csrf : Bytes
  pub scope : Bytes

abbrev pub nobody : Context
nobody = record { user = none; csrf = []; scope = [] }

-- a text, empty where it is NULL
abbrev pub text_or_empty : Option Bytes → Bytes
text_or_empty none = []
text_or_empty (some s) = s

-- the row of a user with one membership
pub member_row : Accounts → UserRow → Membership → MemberRow
member_row db u m = record {
  id = u.id;
  email = u.email;
  name = u.name;
  org_id = m.org_id;
  role = m.role;
  org_slug = text_or_empty (get m.org_id db.organizations);
}

pub memberships_of : Accounts → UserRow → List Membership → List MemberRow
memberships_of db u [] = []
memberships_of db u (m ∷ rest) =
    let rows = memberships_of db u rest in
    if eqb m.user_id u.id then member_row db u m ∷ rows else rows

-- a user without memberships has one row, with NULLs
pub left_join : UserRow → List MemberRow → List MemberRow
left_join u [] =
    record { id = u.id; email = u.email; name = u.name; org_id = []; role = []; org_slug = [] } ∷ []
left_join u (r ∷ rows) = r ∷ rows

-- the query of userForSession: `WHERE u.id = $1`
pub member_rows : Accounts → Bytes → List UserRow → List MemberRow
member_rows db id [] = []
member_rows db id (u ∷ users) =
    let rest = member_rows db id users in
    if eqb u.id id then left_join u (memberships_of db u db.memberships) ++ rest else rest

-- the memberships after a row
pub add_membership : MemberRow → List (Bytes × Bytes) → List (Bytes × Bytes)
add_membership m memberships =
    if is_empty m.org_id
    then memberships
    else put m.org_slug m.role (put m.org_id m.role memberships)

pub add_memberships : List (Bytes × Bytes) → List MemberRow → List (Bytes × Bytes)
add_memberships memberships [] = memberships
add_memberships memberships (m ∷ rows) = add_memberships (add_membership m memberships) rows

-- scanMemberRows
pub scan_member_rows : List MemberRow → Option User
scan_member_rows [] = none
scan_member_rows (m ∷ rows) = some (record {
  id = m.id;
  email = m.email;
  name = m.name;
  memberships = add_memberships [] (m ∷ rows);
})

-- `WHERE t.token_hash = $1 AND t.revoked_at IS NULL`
pub find_token : Bytes → List ApiToken → Option ApiToken
find_token hash [] = none
find_token hash (t ∷ tokens) =
    if eqb t.token_hash hash && not t.is_revoked then some t else find_token hash tokens

-- the id of the session of a cookie
pub session_id : Bytes → List SessionRow → Bytes
session_id hash [] = []
session_id hash (r ∷ rows) = if eqb r.token_hash hash then r.id else session_id hash rows

module _ (sha256 : Bytes → Bytes) where
  -- userForSession
  pub user_for_session : Accounts → Bytes → Bytes → Option (User × Bytes)
  user_for_session db cookie user_id = elim (scan_member_rows (member_rows db user_id db.users)) [
    | none ↦ none
    | some u ↦ some (u, session_id (hash_token sha256 cookie) db.sessions)
  ]

  -- userForAPIToken, with the scope of the token
  pub user_for_api_token : Accounts → Bytes → Option (User × Bytes)
  user_for_api_token db token = elim (find_token (hash_token sha256 token) db.tokens) [
    | none ↦ none
    | some t ↦ elim (scan_member_rows (member_rows db t.user_id db.users)) [
      | none ↦ none
      | some u ↦ some (u, t.scope)
    ]
  ]

  -- the context of a bearer token; `none` is the answer 401
  pub bearer_context : Accounts → Bytes → Option Context
  bearer_context db token =
      if valid_api_token_shape token
      then elim (user_for_api_token db token) [
        | none ↦ none
        | some (u, scope) ↦ some (record { user = some u; csrf = []; scope = scope })
      ]
      else none

  -- the context of a session
  pub session_context : Accounts → Bytes → Bytes → Context
  session_context db cookie user_id =
      if is_empty user_id then nobody else elim (user_for_session db cookie user_id) [
        | none ↦ nobody
        | some (u, csrf) ↦ record { user = some u; csrf = csrf; scope = [] }
      ]

  -- loadPrincipal: the context, `none` where the answer is 401, with the accounts after it
  pub load_principal : ℕ → Request → Accounts → Option Context × Accounts
  load_principal now r db =
      let (user_id, sessions) = Sessions.lookup sha256 now r.cookie db.sessions in
      let db' = record db { sessions = sessions } in
      if has_prefix r.authorization (codes "Bearer ")
      then (bearer_context db (trim_space (trim_prefix r.authorization (codes "Bearer "))), db)
      else (some (session_context db' r.cookie user_id), db')

-- roleAtLeast: the map of ranks, 0 for any other role
pub rank : Bytes → ℕ
rank role =
    if eqb role (codes "member")
    then 1
    else if eqb role (codes "admin")
    then 2
    else if eqb role (codes "owner")
    then 3
    else 0

pub role_at_least : Bytes → Bytes → Bool
role_at_least role min = leb (rank min) (rank role)

-- orgRole
pub org_role : Context → Bytes → Bytes
org_role ctx org = elim ctx.user [ none ↦ [] | some u ↦ text_or_empty (get org u.memberships) ]

-- requireCSRF: the status of a refusal, `none` where the request goes on
pub require_csrf : Request → Context → Option ℕ
require_csrf r ctx =
    let token = if is_empty r.csrf_header then r.csrf_field else r.csrf_header in
    if is_empty ctx.csrf
    then none
    else if is_empty token || not (eqb token ctx.csrf)
    then some 403
    else none

-- requireAuth
pub require_auth : Context → Option ℕ
require_auth ctx = elim ctx.user [ none ↦ some 401 | some u ↦ none ]

-- the test of the scope in `mutate`
pub require_write : Context → Option ℕ
require_write ctx = if eqb ctx.scope (codes "read") then some 403 else none

-- requireProject, with the slug of the organization of the project, where the project is found
pub require_role : Bytes → Option Bytes → Context → Option ℕ
require_role min none ctx = some 404
require_role min (some slug) ctx =
    if not (role_at_least (org_role ctx slug) min) then some 403 else none

-- one guard after another
pub and_then : Option ℕ → Option ℕ → Option ℕ
and_then (some status) next = some status
and_then none next = next

-- `mutate(requireProject(h, "admin"))`
pub require_admin_change : Request → Option Bytes → Context → Option ℕ
require_admin_change r project ctx = and_then (require_csrf r ctx) (
    and_then (require_write ctx)
      (and_then (require_auth ctx) (require_role (codes "admin") project ctx)))

-- what follows the loading of the principal
pub guard_loaded : Request → Option Bytes → Option Context → Option ℕ
guard_loaded r project none = some 401
guard_loaded r project (some ctx) = require_admin_change r project ctx

-- a change of alert rules, from the request to the handler: the status of a refusal, `none` where the
-- handler is reached
pub guard_change : (Bytes → Bytes) → ℕ → Request → Option Bytes → Accounts → Option ℕ
guard_change sha256 now r project db = guard_loaded r project (load_principal sha256 now r db).0
