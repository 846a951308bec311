-- ===== src/Worker/Rollup/Windows.antt =====
-- The passes leave no gap and catch up.
use bug_han.Prelude.{
  ℕ, ◌+◌, ◌-◌, ◌*◌, ◌≤◌, ◌<◌, ◌≡◌, refl, false, some, [], ◌∷◌, ◌++◌, arith, ltb, Bool-cases, inl,
  inr, ◌⊎◌,
}
use bug_han.Worker.Rollup.{State, hour, truncate_hour, window_start, window_end, run_rollup_pass}

-- a window that starts no later than the watermark and ends no earlier, is at most a day long, and
-- ends at the current hour's end unless it is a whole day
pub record Covers (now w start end : ℕ) : Type 0 where
  pub no_gap : start ≤ w
  pub forward : w ≤ end
  pub bounded : end ≤ start + 24 * hour
  pub current :
      (end ≡ truncate_hour now + hour) × (w ≤ truncate_hour now + hour)
      ⊎ (end ≡ w + 24 * hour) × (end < truncate_hour now + hour)

covers :
    (now w : ℕ)
    → 2 * hour ≤ truncate_hour now
    → w ≤ truncate_hour now + hour
    → Covers now w (window_start now (some w)) (window_end now (window_start now (some w)))
unfolding window_start window_end
covers now w late early = elim (Bool-cases (ltb w (truncate_hour now - 2 * hour))) [
  | inr near ↦
      let whole : ltb (truncate_hour now - 2 * hour + 24 * hour) (truncate_hour now + hour)
          ≡ false =
        ground arith in
      rw (near, whole)
        (record {
          no_gap = ground arith;
          forward = early;
          bounded = omega arith;
          current = inl (refl, early);
        })
  | inl far ↦ elim (Bool-cases (ltb (w + 24 * hour) (truncate_hour now + hour))) [
    | inl day ↦
        rw (far, day)
          (record {
            no_gap = omega arith;
            forward = omega arith;
            bounded = omega arith;
            current = inr (refl, ground arith);
          })
    | inr rest ↦
        rw (far, rest)
          (record {
            no_gap = omega arith;
            forward = early;
            bounded = ground arith;
            current = inl (refl, early);
          })
  ]
]

-- A pass aggregates a window that starts no later than the watermark, so that no hour is left out,
-- and is at most 24 hours long; it moves the watermark forward, to the end of the current hour or by
-- 24 hours, where the watermark was not past the end of the current hour and the clock is at least two
-- hours after 1970.
pub run_rollup_pass-Covers :
    (now w : ℕ) (st : State)
    → 2 * hour ≤ truncate_hour now
    → st.watermark ≡ some w
    → w ≤ truncate_hour now + hour
    → (start : ℕ) × (end : ℕ) × ((run_rollup_pass now st).watermark ≡ some end)
      × ((run_rollup_pass now st).windows ≡ st.windows ++ (start, end) ∷ [])
      × Covers now w start end
unfolding run_rollup_pass
run_rollup_pass-Covers now w st late is_w early = (
  window_start now st.watermark,
  window_end now (window_start now st.watermark),
  refl,
  refl,
  rw is_w (covers now w late early),
)
