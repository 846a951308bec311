-- ===== src/Ingest/Issues.antt =====
-- internal/ingest/store.go: upsertIssue, which folds a stored event into its issue. The tables issues
-- and issue_user_hashes are the state; an issue is named by its unique key, the project and the
-- fingerprint, where the database has an id for it.
pub mod Counters
pub mod Lifecycle
mod Tests
use bug_han.Prelude.{
  ℕ, zero, suc, ◌+◌, Bool, true, false, not, ◌&&◌, ◌||◌, Option, none, some, List, [], ◌∷◌, Bytes,
  codes, if◌then◌else◌, eqb, is_empty,
}
use bug_han.Prelude.Int.{ℤ, pos, negsuc, ltb_ℤ}

pub data Status : Type 0 where
  unresolved resolved ignored : Status

pub record Key : Type 0 where
  pub project_id : Bytes
  pub fingerprint : Bytes

-- a row of issues
pub record Issue : Type 0 where
  pub key : Key
  pub title : Bytes
  pub culprit : Bytes
  pub level : Bytes
  pub status : Status
  pub substatus : Bytes
  pub first_seen : ℤ
  pub last_seen : ℤ
  pub count : ℕ
  pub user_count : ℕ

-- what upsertIssue is given of an event; the hash is empty where the user is unknown
pub record Event : Type 0 where
  pub key : Key
  pub title : Bytes
  pub culprit : Bytes
  pub level : Bytes
  pub user_hash : Bytes
  pub timestamp : ℤ

pub record Store : Type 0 where
  pub issues : List Issue
  pub users : List (Key × Bytes)

abbrev pub same_key : Key → Key → Bool
same_key a b = eqb a.project_id b.project_id && eqb a.fingerprint b.fingerprint

-- the pre-read of the row
pub find : Key → List Issue → Option Issue
find k [] = none
find k (i ∷ issues) = if same_key i.key k then some i else find k issues

abbrev pub is_resolved : Status → Bool
is_resolved resolved = true
is_resolved _ = false

-- the inserted row
pub opened : Event → Issue
opened e = record {
  key = e.key;
  title = e.title;
  culprit = e.culprit;
  level = e.level;
  status = unresolved;
  substatus = [];
  first_seen = e.timestamp;
  last_seen = e.timestamp;
  count = 1;
  user_count = 0;
}

-- `ON CONFLICT … DO UPDATE`
pub folded : Event → Issue → Issue
folded e i = record i {
  title = e.title;
  culprit = e.culprit;
  level = e.level;
  status = if is_resolved i.status then unresolved else i.status;
  substatus = if is_resolved i.status then codes "regressed" else i.substatus;
  last_seen = if ltb_ℤ i.last_seen e.timestamp then e.timestamp else i.last_seen;
  count = i.count + 1;
}

pub upsert : Event → List Issue → List Issue
upsert e [] = opened e ∷ []
upsert e (i ∷ issues) =
    let rest = upsert e issues in if same_key i.key e.key then folded e i ∷ issues else i ∷ rest

-- the unique constraint of issue_user_hashes
pub is_known : Key → Bytes → List (Key × Bytes) → Bool
is_known k hash [] = false
is_known k hash ((j, h) ∷ users) = (same_key j k && eqb h hash) || is_known k hash users

-- `SET user_count = user_count + 1`
abbrev pub bumped : Issue → Issue
bumped i = record i { user_count = i.user_count + 1 }

pub bump : Key → List Issue → List Issue
bump k [] = []
bump k (i ∷ issues) =
    let rest = bump k issues in if same_key i.key k then bumped i ∷ issues else i ∷ rest

-- the user of the event, counted once for each issue
pub count_user : Event → Store → Store
count_user e st =
    if is_empty e.user_hash || is_known e.key e.user_hash st.users
    then st
    else record { issues = bump e.key st.issues; users = (e.key, e.user_hash) ∷ st.users }

-- what upsertIssue returns with the store: whether the issue is new, and whether it was resolved
pub record Upserted : Type 0 where
  pub store : Store
  pub is_new : Bool
  pub is_regression : Bool

-- upsertIssue
pub upsert_issue : Event → Store → Upserted
upsert_issue e st = record {
  store = count_user e (record st { issues = upsert e st.issues });
  is_new = elim (find e.key st.issues) [ none ↦ true | some i ↦ false ];
  is_regression = elim (find e.key st.issues) [ none ↦ false | some i ↦ is_resolved i.status ];
}
