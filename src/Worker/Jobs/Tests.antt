-- ===== src/Worker/Jobs/Tests.antt =====
-- The worker's loop at a table that meets the hypotheses of its theorems.
use bug_han.Prelude.{◌≡◌, refl, none, some, List, [], ◌∷◌, codes, arith, All, eqb, if◌then◌else◌}
use bug_han.Prelude.Int.{pos}
use bug_han.Worker.Jobs.{Job, pending, is_due, Handlers, run_due}
use bug_han.Worker.Jobs.Drain.{IsJob, due_count, run_due-drains}

-- one handler, which fails on an empty payload
abbrev handlers : Handlers
handlers kind =
    if eqb kind (codes "rollup")
    then some (λ p. if eqb p (codes "{}") then some (codes "no project") else none)
    else none

abbrev waiting : Job
waiting = record {
  kind = codes "rollup";
  payload = codes "{}";
  status = pending;
  run_at = pos 5;
  attempts = 2;
  max_attempts = 3;
  last_error = [];
}

abbrev unknown : Job
unknown = record waiting { kind = codes "mail"; run_at = pos 4; attempts = 0 }

abbrev future : Job
future = record waiting { run_at = pos 90 }

abbrev table : List Job
table = waiting ∷ unknown ∷ future ∷ []

table-IsJob : All IsJob table
table-IsJob = (
  record { within = omega arith; few = omega arith },
  (
    record { within = omega arith; few = omega arith },
    (record { within = omega arith; few = omega arith }, tt),
  ),
)

table_due : due_count (pos 10) table ≡ 2
unfolding due_count is_due
table_due = refl

run_due-drains_example :
    ((run_due 2 handlers (pos 10) table).1 ≡ 2)
    × (due_count (pos 10) (run_due 2 handlers (pos 10) table).0 ≡ 0)
    × All IsJob (run_due 2 handlers (pos 10) table).0
run_due-drains_example = run_due-drains handlers (pos 10) 2 table table-IsJob table_due
