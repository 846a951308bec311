-- ===== src/Http/Access/Tests.antt =====
-- A change by an API token of an administrator.
use bug_han.Prelude.{◌≡◌, refl, false, none, some, [], ◌∷◌, Bytes, codes}
use bug_han.Ingest.Auth.{get, put}
use bug_han.Ingest.Grouping.{hex}
use bug_han.Auth.Tokens.{hash_token, valid_api_token_shape}
use bug_han.Http.Access.{
  Accounts, Request, member_row, memberships_of, left_join, member_rows, add_membership,
  add_memberships, scan_member_rows, find_token, user_for_api_token, bearer_context, load_principal,
  rank, role_at_least, org_role, require_csrf, require_auth, require_write, require_role, and_then,
  require_admin_change, guard_loaded, guard_change,
}
use bug_han.Http.Access.Changes.{Reached, guard_change-Reached}

-- a digest that tells nothing apart
abbrev digest : Bytes → Bytes
digest s = []

abbrev accounts : Accounts
accounts = record {
  users = record { id = codes "u1"; email = codes "a@x.io"; name = codes "Ann" } ∷ [];
  memberships = record { user_id = codes "u1"; org_id = codes "o1"; role = codes "admin" } ∷ [];
  organizations = (codes "o1", codes "acme") ∷ [];
  tokens =
      record { token_hash = []; user_id = codes "u1"; scope = codes "write"; is_revoked = false }
      ∷ [];
  sessions = [];
}

abbrev request : Request
request = record {
  authorization = codes "Bearer bghan_0123456789abcdef0123456789abcdef0123456789abcdef";
  cookie = [];
  csrf_header = [];
  csrf_field = [];
}

passes : guard_change digest 7 request (some (codes "acme")) accounts ≡ none
unfolding guard_change guard_loaded load_principal bearer_context user_for_api_token find_token
    hash_token hex valid_api_token_shape scan_member_rows member_rows left_join memberships_of
    member_row add_memberships add_membership get put require_admin_change require_csrf
    require_write require_auth require_role org_role role_at_least rank and_then
passes = refl

guard_change-Reached_example : Reached digest 7 request accounts (some (codes "acme"))
guard_change-Reached_example =
    guard_change-Reached digest 7 request accounts (some (codes "acme")) passes
