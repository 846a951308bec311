-- ===== src/Worker/Rollup.antt =====
-- internal/worker/rollup.go: the window of a rollup pass and the watermark. The state is the stored
-- watermark with the windows that were aggregated, which stand for the statement on
-- transaction_rollups. Time is in seconds after 1970.
pub mod Windows
mod Tests
use bug_han.Prelude.{
  ℕ, zero, suc, ◌+◌, ◌-◌, ◌*◌, ◌%◌, Option, none, some, List, [], ◌∷◌, ◌++◌, if◌then◌else◌, ltb,
}

abbrev pub hour : ℕ
hour = 3600

-- trailingHours and maxBackfillHours
abbrev pub trailing_hours : ℕ
trailing_hours = 2 * hour

abbrev pub max_backfill_hours : ℕ
max_backfill_hours = 24

-- Truncate(time.Hour)
pub truncate_hour : ℕ → ℕ
truncate_hour t = t - t % hour

pub record State : Type 0 where
  pub watermark : Option ℕ
  pub windows : List (ℕ × ℕ)

-- windowStart
pub window_start : ℕ → Option ℕ → ℕ
window_start now none = truncate_hour now - trailing_hours
window_start now (some w) =
    if ltb w (truncate_hour now - trailing_hours) then w else truncate_hour now - trailing_hours

-- windowEnd
pub window_end : ℕ → ℕ → ℕ
window_end now start =
    if ltb (start + max_backfill_hours * hour) (truncate_hour now + hour)
    then start + max_backfill_hours * hour
    else truncate_hour now + hour

-- RunRollupPass
pub run_rollup_pass : ℕ → State → State
run_rollup_pass now st =
    let start = window_start now st.watermark in
    let end = window_end now start in
    record { watermark = some end; windows = st.windows ++ (start, end) ∷ [] }
