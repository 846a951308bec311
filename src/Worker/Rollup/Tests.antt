-- ===== src/Worker/Rollup/Tests.antt =====
-- A pass with a backlog of four days.
use bug_han.Prelude.{◌*◌, ◌≡◌, refl, some, [], ◌∷◌, ◌++◌, ℕ, arith}
use bug_han.Worker.Rollup.{State, hour, truncate_hour, run_rollup_pass}
use bug_han.Worker.Rollup.Windows.{Covers, run_rollup_pass-Covers}

abbrev behind : State
behind = record { watermark = some (100 * hour); windows = [] }

run_rollup_pass-Covers_example :
    (start : ℕ) × (end : ℕ) × ((run_rollup_pass (200 * hour) behind).watermark ≡ some end)
    × ((run_rollup_pass (200 * hour) behind).windows ≡ [] ++ (start, end) ∷ [])
    × Covers (200 * hour) (100 * hour) start end
unfolding truncate_hour
run_rollup_pass-Covers_example =
    run_rollup_pass-Covers (200 * hour) (100 * hour) behind (omega arith) refl (omega arith)
