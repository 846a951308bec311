-- ===== src/SourceMap/Map/Search.antt =====
-- sort.Search of Go's standard library: the binary search for the first index at which a test holds.
use bug_han.Prelude.{
  ℕ, zero, suc, ◌+◌, ◌/◌, ◌<◌, ◌≤◌, ◌≡◌, Bool, true, false, arith, ltb, if◌then◌else◌, Bool-cases,
  inl, inr,
}

-- `for i < j { h := (i+j)/2; if !f(h) { i = h + 1 } else { j = h } }`
pub search_loop : ℕ → (ℕ → Bool) → ℕ → ℕ → ℕ
search_loop zero f i j = i
search_loop (suc fuel) f i j =
    let right = search_loop fuel f ((i + j) / 2 + 1) j in
    let left = search_loop fuel f i ((i + j) / 2) in
    if ltb i j then if f ((i + j) / 2) then left else right else i

unfoldable pub search : ℕ → (ℕ → Bool) → ℕ
unfolding search_loop
search n f = search_loop n f 0 n

-- The index splits the range: below it the test fails, from it on the test holds.
pub record Splits (n : ℕ) (f : ℕ → Bool) (r : ℕ) : Type 0 where
  pub in_range : r ≤ n
  pub below : (k : ℕ) → k < r → f k ≡ false
  pub above : (k : ℕ) → r ≤ k → k < n → f k ≡ true

module _ (n : ℕ) (f : ℕ → Bool) (mono : (k l : ℕ) → k ≤ l → l < n → f k ≡ true → f l ≡ true) where
  below_mid :
      (k i j : ℕ)
      → ltb i j ≡ true
      → j ≤ n
      → f ((i + j) / 2) ≡ false
      → k < (i + j) / 2 + 1
      → f k ≡ false
  below_mid k i j more top miss p = elim (Bool-cases (f k)) [
    | inr q ↦ q
    | inl q ↦ absurd (cc (miss, mono k ((i + j) / 2) (omega arith) (ground arith) q))
  ]

  search_loop-Splits :
      (fuel i j : ℕ)
      → j ≤ i + fuel
      → i ≤ j
      → j ≤ n
      → ((k : ℕ) → k < i → f k ≡ false)
      → ((k : ℕ) → j ≤ k → k < n → f k ≡ true)
      → Splits n f (search_loop fuel f i j)
  unfolding search_loop
  search_loop-Splits zero i j fuel le top lo hi = record {
    in_range = omega arith;
    below = lo;
    above = λ k p q. hi k (omega arith) q;
  }
  search_loop-Splits (suc fuel) i j le bounds top lo hi = elim (Bool-cases (ltb i j)) [
    | inr done ↦
        rw done
          (record { in_range = omega arith; below = lo; above = λ k p q. hi k (ground arith) q })
    | inl more ↦ rw more (elim (Bool-cases (f ((i + j) / 2))) [
      | inl hit ↦ rw hit (
          search_loop-Splits fuel i ((i + j) / 2) (ground arith) (ground arith) (ground arith) lo
            (λ k p q. mono ((i + j) / 2) k p q hit))
      | inr miss ↦ rw miss (
          search_loop-Splits fuel ((i + j) / 2 + 1) j (ground arith) (ground arith) top
            (λ k p. below_mid k i j more top miss p) hi)
    ])
  ]

-- The binary search finds the split of a monotone test.
pub search-Splits :
    (n : ℕ) (f : ℕ → Bool)
    → ((k l : ℕ) → k ≤ l → l < n → f k ≡ true → f l ≡ true)
    → Splits n f (search n f)
unfolding search
search-Splits n f mono =
    search_loop-Splits n f mono n 0 n (omega arith) (omega arith) (omega arith)
      (λ k p. absurd (omega arith)) (λ k p q. absurd (omega arith))
