-- ===== src/SourceMap/Vlq/Digits.antt =====
-- The base64 digits of vlq.go: characters and positions, and the bit operations on them.
use Prim.Native.Nat.{bit_and, bit_or, bit_and-bitwise, bit_or-bitwise, digits, min, max}
use native.Mathlib.Nat.{pow-suc}
use bug_han.Prelude.{
  ℕ, zero, suc, ◌+◌, ◌*◌, ◌/◌, ◌%◌, ◌^◌, ◌<◌, ◌≤◌, ◌≡◌, refl, ◌∙◌, Bool, true, ◌&&◌, none, some,
  arith, ◌==◌, get_or, every_under, every_under-elem,
}
use bug_han.SourceMap.Vlq.{b64chars, b64index, fill}

-- the character of a digit below 64
pub b64char : ℕ → ℕ
b64char d = get_or b64chars d 0

-- `c` is the position `d` of the alphabet
holds : ℕ → Bool
holds d = elim (b64index (b64char d)) [
  | none ↦ bit_and 1 0 == 1
  | some x ↦ x == d && (bit_and d 31 == d % 32) && (bit_and d 32 == d / 32 * 32)
]

digit_table : every_under holds 64 ≡ true
unfolding holds b64index fill b64char
digit_table = refl

pub digit_lem :
    (d : ℕ)
    → d < 64
    → (b64index (b64char d) ≡ some d) × (bit_and d 31 ≡ d % 32) × (bit_and d 32 ≡ d / 32 * 32)
unfolding holds
digit_lem d h = ground (arith, every_under-elem holds 64 digit_table d h)

or_digits : (n k a b : ℕ) → a ≤ n → a < 2 ^ k → digits (λ b. b) max n a (b * 2 ^ k) ≡ a + b * 2 ^ k
or_digits zero k zero b h lt = omega arith
or_digits zero k (suc a) b h lt = absurd (omega arith)
or_digits (suc n) k zero b h lt = omega arith
or_digits (suc n) zero (suc a) b h lt = absurd (omega arith)
or_digits (suc n) (suc k) (suc a) b h lt =
    let doubled : b * 2 ^ suc k ≡ b * 2 ^ k * 2 = rw (pow-suc 2 k) (omega arith) in
    let half : b * 2 ^ k * 2 / 2 ≡ b * 2 ^ k = omega arith in
    let even : b * 2 ^ k * 2 % 2 ≡ 0 = omega arith in
    rw (doubled, half, even)
      (omega (arith, or_digits n k (suc a / 2) b (omega arith) (omega (arith, pow-suc 2 k))))

-- or-ing in bits above the ones that are set adds them
pub bit_or-add : (k a b : ℕ) → a < 2 ^ k → bit_or a (b * 2 ^ k) ≡ a + b * 2 ^ k
bit_or-add k a b lt = bit_or-bitwise a (b * 2 ^ k) ∙ or_digits a k a b (omega arith) lt

and_digits-zero : (n a : ℕ) → digits (λ b. zero) min n a 0 ≡ 0
and_digits-zero zero a = refl
and_digits-zero (suc n) zero = refl
and_digits-zero (suc n) (suc a) = omega (arith, and_digits-zero n (suc a / 2))

pub bit_and-one : (a : ℕ) → bit_and a 1 ≡ a % 2
bit_and-one zero = refl
bit_and-one (suc a) = bit_and-bitwise (suc a) 1 ∙ omega (arith, and_digits-zero a (suc a / 2))
