-- ===== src/Ingest/Auth/Tests.antt =====
-- A request with an empty cache.
use bug_han.Prelude.{Option, none, some, [], Bytes, codes, eqb, ◌&&◌, if◌then◌else◌}
use bug_han.Prelude.Int.{ℤ}
use bug_han.Ingest.Auth.{ProjectAuth, AuthCache}

-- a database with one key of one project
abbrev db : ℤ → Bytes → Bytes → Option ProjectAuth
db t p k =
    if eqb p (codes "7") && eqb k (codes "abc")
    then some (record { project_id = codes "7"; org_id = codes "1"; key_id = codes "abc" })
    else none

abbrev fresh : AuthCache
fresh = record { entries = []; neg = [] }
