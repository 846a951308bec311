-- ===== src/Ingest/Tables.antt =====
-- The tables that the stores of internal/ingest write, internal/ingest/store.go and pipeline.go, with
-- touchRelease and the counters that several of them share. A statement succeeds unless the model
-- names its failure; generated row ids and columns with defaults that nothing reads are left out.
use bug_han.Prelude.{
  ℕ, ◌+◌, Bool, ◌&&◌, Option, none, some, List, [], ◌∷◌, Bytes, if◌then◌else◌, eqb, is_empty,
}
use bug_han.Prelude.Int.{ℤ, ltb_ℤ}
use bug_han.Ingest.Issues
use bug_han.Ingest.Sessions.{eq_ℤ}
use bug_han.Ingest.Sessions

-- a row of events_part
pub record EventRow : Type 0 where
  pub id : Bytes
  pub project_id : Bytes
  pub timestamp : ℤ
  pub platform : Bytes
  pub level : Bytes
  pub environment : Bytes
  pub release : Bytes
  pub dist : Bytes
  pub title : Bytes
  pub culprit : Bytes
  pub message : Bytes
  pub trace_id : Option Bytes
  pub span_id : Bytes
  pub user_hash : Bytes
  pub tags : List (Bytes × Bytes)
  pub payload : Bytes
  pub issue : Option Issues.Key

-- a row of transactions_part; its duration is the time between its two times
pub record TransactionRow : Type 0 where
  pub id : Bytes
  pub project_id : Bytes
  pub timestamp : ℤ
  pub start_timestamp : ℤ
  pub trace_id : Option Bytes
  pub span_id : Bytes
  pub name : Bytes
  pub source : Bytes
  pub status : Bytes
  pub environment : Bytes
  pub release : Bytes
  pub dist : Bytes
  pub measurements : Bytes
  pub payload : Bytes

-- a row of feedbacks
pub record FeedbackRow : Type 0 where
  pub id : Bytes
  pub project_id : Bytes
  pub associated_event_id : Option Bytes
  pub issue : Option Issues.Key
  pub name : Bytes
  pub contact_email : Bytes
  pub message : Bytes
  pub url : Bytes
  pub payload : Bytes

-- a row of releases
pub record ReleaseRow : Type 0 where
  pub project_id : Bytes
  pub version : Bytes
  pub first_event_at : Option ℤ
  pub last_event_at : Option ℤ

-- the tables; event_rollups, project_event_rollups and unknown_item_stats are counts by their keys
pub record Tables : Type 0 where
  pub events : List EventRow
  pub issues : Issues.Store
  pub event_rollups : List ((Issues.Key × ℤ) × ℕ)
  pub project_rollups : List ((Bytes × ℤ) × ℕ)
  pub transactions : List TransactionRow
  pub sessions : Sessions.Store
  pub feedbacks : List FeedbackRow
  pub releases : List ReleaseRow
  pub unknown_items : List ((Bytes × (Bytes × ℤ)) × ℕ)

-- `INSERT … VALUES (…, 1) ON CONFLICT … DO UPDATE SET count = count + 1`
unfoldable pub count_up {ℓ} : {K : Type ℓ} → (K → K → Bool) → K → List (K × ℕ) → List (K × ℕ)
count_up same k [] = (k, 1) ∷ []
count_up same k ((j, n) ∷ rows) =
    let rest = count_up same k rows in if same j k then (j, n + 1) ∷ rows else (j, n) ∷ rest

abbrev pub same_issue_hour : Issues.Key × ℤ → Issues.Key × ℤ → Bool
same_issue_hour (j, h) (k, i) = Issues.same_key j k && eq_ℤ h i

abbrev pub same_project_hour : Bytes × ℤ → Bytes × ℤ → Bool
same_project_hour (p, h) (q, i) = eqb p q && eq_ℤ h i

abbrev pub same_item_day : Bytes × (Bytes × ℤ) → Bytes × (Bytes × ℤ) → Bool
same_item_day (p, (t, d)) (q, (u, e)) = eqb p q && (eqb t u && eq_ℤ d e)

-- GREATEST, which ignores NULL
pub greatest : Option ℤ → ℤ → ℤ
greatest none t = t
greatest (some s) t = if ltb_ℤ s t then t else s

-- COALESCE
pub coalesce : Option ℤ → ℤ → ℤ
coalesce none t = t
coalesce (some s) t = s

-- the upsert of touchRelease
pub put_release : Bytes → Bytes → ℤ → List ReleaseRow → List ReleaseRow
put_release project_id version ts [] =
    record {
      project_id = project_id;
      version = version;
      first_event_at = some ts;
      last_event_at = some ts;
    }
    ∷ []
put_release project_id version ts (r ∷ rows) =
    let rest = put_release project_id version ts rows in
    if eqb r.project_id project_id && eqb r.version version
    then (record r {
      first_event_at = some (coalesce r.first_event_at ts);
      last_event_at = some (greatest r.last_event_at ts);
    })
      ∷ rows
    else r ∷ rest

-- touchRelease
pub touch_release : Bytes → Bytes → ℤ → List ReleaseRow → List ReleaseRow
touch_release project_id version ts rows =
    if is_empty version then rows else put_release project_id version ts rows
