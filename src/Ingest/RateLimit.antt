-- ===== src/Ingest/RateLimit.antt =====
-- internal/ingest/ratelimit.go: the counter of a project in a window of one minute. The table
-- ingest_counters is the state; time is in nanoseconds after 1970. Whether the database answers is told
-- for each request; a statement that fails leaves the table as it is.
pub mod Quota
mod Tests
use bug_han.Prelude.{
  ℕ, zero, suc, ◌+◌, ◌-◌, ◌%◌, ◌==◌, Bool, true, false, not, ◌&&◌, List, [], ◌∷◌, Bytes,
  if◌then◌else◌, ltb, leb, eqb,
}
use bug_han.Prelude.Int.{ℤ, pos, negsuc}

abbrev pub minute : ℕ
minute = 60_000_000_000

-- a row of ingest_counters
pub record Counter : Type 0 where
  pub project_id : Bytes
  pub window_start : ℕ
  pub count : ℕ

-- what Check returns: whether the request passes, when to try again, and what remains
pub record Verdict : Type 0 where
  pub allowed : Bool
  pub retry_after : ℕ
  pub remaining : ℕ

-- now.Truncate(time.Minute)
pub window_of : ℕ → ℕ
window_of now = now - now % minute

abbrev pub is_row : Bytes → ℕ → Counter → Bool
is_row project_id window c = eqb c.project_id project_id && c.window_start == window

-- the upsert, with the count that it returns
pub hit : Bytes → ℕ → List Counter → ℕ × List Counter
hit project_id window [] =
    (1, record { project_id = project_id; window_start = window; count = 1 } ∷ [])
hit project_id window (c ∷ rows) =
    let (n, rest) = hit project_id window rows in
    if is_row project_id window c
    then (c.count + 1, (record c { count = c.count + 1 }) ∷ rows)
    else (n, c ∷ rest)

-- a verdict that counts nothing
abbrev pub pass : Verdict
pass = record { allowed = true; retry_after = 0; remaining = 0 }

-- Check, where the database answers or fails
pub check : Bool → ℤ → ℕ → Bytes → List Counter → Verdict × List Counter
check answers (negsuc n) now project_id rows = (pass, rows)
check answers (pos limit) now project_id rows =
    let (count, rows') = hit project_id (window_of now) rows in
    if limit == 0 then (pass, rows) else if not answers then (pass, rows) else (
      record {
        allowed = leb count limit;
        retry_after = window_of now + minute - now;
        remaining = limit - count;
      },
      rows',
    )
