-- ===== src/Worker/Jobs.antt =====
-- internal/worker/worker.go: the jobs table and the loop that claims and executes due jobs. The table
-- is the list of its rows and a job's id is its place there; time is in nanoseconds, and a handler is
-- a parameter that returns its error. Failures of the database are left out.
pub mod Drain
mod Tests
use bug_han.Prelude.{
  ℕ, zero, suc, ◌+◌, ◌-◌, ◌*◌, ◌%◌, ◌^◌, Bool, true, false, not, ◌&&◌, Option, none, some, List, [],
  ◌∷◌, ◌++◌, Bytes, codes, leb, ◌==◌, if◌then◌else◌, is_empty, set,
}
use bug_han.Prelude.Int.{ℤ, pos, negsuc, ◌+ℤ◌, ltb_ℤ}
use bug_han.SourceMap.Vlq.{signed64}

pub data Status : Type 0 where
  pending running done failed : Status

-- a row of jobs
pub record Job : Type 0 where
  pub kind : Bytes
  pub payload : Bytes
  pub status : Status
  pub run_at : ℤ
  pub attempts : ℕ
  pub max_attempts : ℕ
  pub last_error : Bytes

-- Enqueue: the columns that the statement leaves out have their defaults
pub enqueue : Bytes → Bytes → ℤ → List Job → List Job
enqueue kind payload run_at jobs =
    jobs
    ++ record {
      kind = kind;
      payload = if is_empty payload then codes "{}" else payload;
      status = pending;
      run_at = run_at;
      attempts = 0;
      max_attempts = 3;
      last_error = [];
    }
      ∷ []

abbrev pub is_pending : Status → Bool
is_pending pending = true
is_pending _ = false

-- `status = 'pending' AND run_at <= now()`
pub is_due : ℤ → Job → Bool
is_due now j = is_pending j.status && not (ltb_ℤ now j.run_at)

-- `ORDER BY run_at LIMIT 1` over the due rows
pub earliest : ℤ → List Job → Option (ℕ × Job)
earliest now [] = none
earliest now (j ∷ jobs) = elim (earliest now jobs) [
  | none ↦ if is_due now j then some (0, j) else none
  | some (id, i) ↦
      if is_due now j && not (ltb_ℤ i.run_at j.run_at) then some (0, j) else some (suc id, i)
]

-- the claimed row
abbrev pub started : Job → Job
started j = record j { status = running; attempts = j.attempts + 1 }

-- claim: the job with its id, where one is due, and the table after
pub claim : ℤ → List Job → Option (ℕ × Job) × List Job
claim now jobs = elim (earliest now jobs) [
  | none ↦ (none, jobs)
  | some (id, j) ↦ (some (id, started j), set jobs id (started j))
]

-- `time.Duration(1<<uint(attempts-1)) * time.Minute`
pub backoff : ℕ → ℤ
backoff zero = pos 0
backoff (suc n) = signed64 (2 ^ n % 2 ^ 64 * 60_000_000_000 % 2 ^ 64)

abbrev pub Handlers : Type 0
Handlers = Bytes → Option (Bytes → Option Bytes)

-- the error that the handler returns, or the want of one
pub outcome : Handlers → Job → Option Bytes
outcome handlers j = elim (handlers j.kind) [
  | none ↦ some (codes "no handler registered for kind " ++ j.kind)
  | some h ↦ h j.payload
]

-- the row after the outcome is recorded
pub finish : ℤ → Job → Option Bytes → Job
finish now j none = record j { status = done }
finish now j (some e) =
    if leb j.max_attempts j.attempts
    then record j { status = failed; last_error = e }
    else record j { status = pending; run_at = now +ℤ backoff j.attempts; last_error = e }

-- execute
pub execute : Handlers → ℤ → ℕ → Job → List Job → List Job
execute handlers now id j jobs = set jobs id (finish now j (outcome handlers j))

-- runDue: the table after and how many ran, with a bound on the rounds
pub run_due : ℕ → Handlers → ℤ → List Job → List Job × ℕ
run_due zero handlers now jobs = (jobs, 0)
run_due (suc fuel) handlers now jobs =
    let (claimed, jobs') = claim now jobs in
    elim claimed [
      | none ↦ (jobs', 0)
      | some (id, j) ↦
          let (rest, ran) = run_due fuel handlers now (execute handlers now id j jobs') in
          (rest, ran + 1)
    ]
