-- ===== src/Hll/Rank.antt =====
-- The rank of a hash: one more than the leading zeros of its low 52 bits.
use native.Mathlib.Nat.{pow-suc, pow-le-pow_right}
use native.Mathlib.Decide.{dec_lt}
use bug_han.Prelude.{ℕ, zero, suc, ◌+◌, ◌*◌, ◌%◌, ◌^◌, ◌≤◌, ◌<◌, ◌≡◌, arith}
use bug_han.Hll.{rank_loop, rank_of}

pub rank_loop_zero : (fuel rank : ℕ) → 63 ≤ rank + fuel → rank ≤ 63 → rank_loop fuel rank 0 ≡ 63
unfolding rank_loop
rank_loop_zero zero rank h k = omega arith
rank_loop_zero (suc fuel) rank h k = ground (arith, rank_loop_zero fuel (rank + 1))

pow_pos : (j : ℕ) → 1 ≤ 2 ^ j
pow_pos zero = omega arith
pow_pos (suc j) = omega (arith, pow-suc 2 j, pow_pos j)

times_pow-le : (a j : ℕ) → a ≤ a * 2 ^ j
times_pow-le a j = grind (arith, pow_pos j)

times_pow-suc : (a j : ℕ) → a * 2 ^ suc j ≡ (a * 2) * 2 ^ j
times_pow-suc a j = rw (pow-suc 2 j) (omega arith)

-- doubling j times brings the remainder's top bit to bit 63
rank_loop_shift :
    (j fuel rank rem : ℕ)
    → 63 ≤ rank + fuel
    → rank + j ≤ 63
    → 2 ^ 63 ≤ rem * 2 ^ j
    → rem * 2 ^ j < 2 ^ 64
    → rank_loop fuel rank rem ≡ rank + j
unfolding rank_loop
rank_loop_shift zero zero rank rem h k lo hi = omega arith
rank_loop_shift (suc j) zero rank rem h k lo hi = absurd (omega arith)
rank_loop_shift zero (suc fuel) rank rem h k lo hi = ground arith
rank_loop_shift (suc j) (suc fuel) rank rem h k lo hi =
    let small : rem * 2 < 2 ^ 64 = omega (arith, times_pow-suc rem j, times_pow-le (rem * 2) j) in
    let doubled : rem * 2 % 2 ^ 64 ≡ rem * 2 = omega arith in
    let next : rank_loop fuel (rank + 1) (rem * 2) ≡ rank + 1 + j =
      rank_loop_shift j fuel (rank + 1) (rem * 2) (omega arith) (omega arith)
        (omega (arith, times_pow-suc rem j)) (omega (arith, times_pow-suc rem j)) in
    rw doubled (rw next (ground arith))

pow-lt : (j : ℕ) → 2 ^ j < 2 ^ 52 → j < 52
pow-lt j h = elim (dec_lt j 52) [
  | yes p ↦ p
  | no p ↦
      absurd (omega (arith, pow-le-pow_right {n = 2} (omega arith) {i = 52} {j = j} (omega arith)))
]

factor-le : (a b : ℕ) → 0 < a * b → b ≤ a * b
factor-le zero b h = absurd (omega arith)
factor-le (suc a) b h = omega arith

-- The rank of a hash whose low 52 bits are not all zero is one more than the number j of zeros that
-- lead them: doubling them j times brings their first one to the top, bit 51.
rank_of-leading_zeros :
    (h j : ℕ) → 2 ^ 51 ≤ h % 2 ^ 52 * 2 ^ j → h % 2 ^ 52 * 2 ^ j < 2 ^ 52 → rank_of h ≡ 1 + j
unfolding rank_of
rank_of-leading_zeros h j lo hi =
    let low : ℕ = h % 2 ^ 52 in
    let shifted : h * 2 ^ 12 % 2 ^ 64 ≡ low * 2 ^ 12 = omega arith in
    let j_small : 2 ^ j < 2 ^ 52 = omega (arith, factor-le low (2 ^ j) (omega arith)) in
    rw shifted (
      rank_loop_shift j 63 1 (low * 2 ^ 12) (omega arith) (omega (arith, pow-lt j j_small))
        (omega arith) (omega arith))

rank_loop_bounds :
    (fuel rank rem : ℕ)
    → rank ≤ 63
    → (rank ≤ rank_loop fuel rank rem) × (rank_loop fuel rank rem ≤ 63)
unfolding rank_loop
rank_loop_bounds zero rank rem h = omega arith
rank_loop_bounds (suc fuel) rank rem h =
    ground (arith, rank_loop_bounds fuel (rank + 1) (rem * 2 % 2 ^ 64))

-- A rank lies between 1 and 63, for every hash, so it fits the six bits of a stored register.
pub rank_of_bounds : (h : ℕ) → (1 ≤ rank_of h) × (rank_of h ≤ 63)
unfolding rank_of
rank_of_bounds h = rank_loop_bounds 63 1 (h * 2 ^ 12 % 2 ^ 64) (omega arith)

-- A hash whose low 52 bits are all zero has rank 63.
pub rank_of_zero : (h : ℕ) → h % 2 ^ 52 ≡ 0 → rank_of h ≡ 63
unfolding rank_of
rank_of_zero h e =
    let shifted : h * 2 ^ 12 % 2 ^ 64 ≡ 0 = omega arith in
    rw shifted (rank_loop_zero 63 1 (omega arith) (omega arith))
