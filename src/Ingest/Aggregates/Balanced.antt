-- ===== src/Ingest/Aggregates/Balanced.antt =====
-- Counts that an SDK has aggregated leave the rollups balanced.
use bug_han.Prelude.{
  suc, ◌+◌, ◌-◌, ◌%◌, ◌^◌, ◌<◌, ◌≤◌, ◌≡◌, refl, true, false, ltb, List, [], ◌∷◌, Bytes, arith,
  Bool-cases, inl, inr, All,
}
use bug_han.Prelude.Int.{ℤ, pos, negsuc, pos_part, neg_part, ◌+ℤ◌, +ℤ_parts}
use bug_han.Ingest.Sessions.{Rollup, RollupKey, same_key}
use bug_han.Ingest.Sessions.Rollups.{Balance-add, IsBalanced}
use bug_han.Ingest.Payloads.{Aggregate}
use bug_han.Ingest.Tables.{Tables}
use bug_han.Ingest.Aggregates.{
  wrap_int64, outcomes_of, total_of, aggregated, put_aggregate, grown, add_aggregate,
}

-- an integer that an int of 64 bits holds
abbrev pub IsInt64 : ℤ → Type 0
IsInt64 z = (pos_part z < 2 ^ 63) × (neg_part z ≤ 2 ^ 63)

wrap_int64-id : (z : ℤ) → IsInt64 z → wrap_int64 z ≡ z
unfolding wrap_int64
wrap_int64-id (pos n) (lo, hi) =
    let bits : (n + (2 ^ 64 - 0 % 2 ^ 64)) % 2 ^ 64 ≡ n = omega arith in
    let test : ltb n (2 ^ 63) ≡ true = ground arith in rw (bits, test) refl
wrap_int64-id (negsuc n) (lo, hi) =
    let bits : (0 + (2 ^ 64 - suc n % 2 ^ 64)) % 2 ^ 64 ≡ 2 ^ 64 - suc n = omega arith in
    let test : ltb (2 ^ 64 - suc n) (2 ^ 63) ≡ false = ground arith in
    let back : 2 ^ 64 - (2 ^ 64 - suc n) - 1 ≡ n = omega arith in rw (bits, test, back) refl

-- an aggregate whose sum does not wrap around
pub record Fits (a : Aggregate) : Type 0 where
  pub sum : IsInt64 (outcomes_of a)

aggregated-IsBalanced : (k : RollupKey) (a : Aggregate) → Fits a → IsBalanced (aggregated k a)
unfolding aggregated total_of
aggregated-IsBalanced k a f = record {
  outcomes = rw (wrap_int64-id (outcomes_of a) f.sum) (
      omega (
        arith,
        +ℤ_parts a.exited a.abnormal,
        +ℤ_parts (a.exited +ℤ a.abnormal) a.crashed,
        +ℤ_parts (a.exited +ℤ a.abnormal +ℤ a.crashed) a.errored,
      ));
}

put_aggregate-IsBalanced :
    (new : Rollup) (rollups : List Rollup)
    → IsBalanced new
    → All IsBalanced rollups
    → All IsBalanced (put_aggregate new rollups)
unfolding put_aggregate grown
put_aggregate-IsBalanced new [] b h = (b, tt)
put_aggregate-IsBalanced new (r ∷ rollups) b (hr, h) = elim (Bool-cases (same_key r.key new.key)) [
  | inl e ↦ rw e (record { outcomes = Balance-add _ _ _ _ _ _ _ _ _ _ hr.outcomes b.outcomes }, h)
  | inr e ↦ rw e (hr, put_aggregate-IsBalanced new rollups b h)
]

-- all rollups of the tables are balanced
pub record AreBalanced (db : Tables) : Type 0 where
  pub balanced : All IsBalanced db.sessions.rollups

pub add_aggregate-AreBalanced :
    (project_id release environment : Bytes) (started hour : ℤ) (a : Aggregate) (db : Tables)
    → Fits a
    → AreBalanced db
    → AreBalanced (add_aggregate project_id release environment started hour a db)
unfolding add_aggregate
add_aggregate-AreBalanced project_id release environment started hour a db f h = record {
  balanced =
      put_aggregate-IsBalanced _ db.sessions.rollups (aggregated-IsBalanced _ a f) h.balanced;
}
