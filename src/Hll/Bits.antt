-- ===== src/Hll/Bits.antt =====
-- Bits of a byte string under the shifts and masks of the packing.
use Prim.Native.Nat.{bit_or}
use bug_han.Prelude.{
  ℕ, zero, suc, ◌+◌, ◌*◌, ◌/◌, ◌%◌, ◌^◌, ◌<◌, ◌≡◌, refl, Bool, true, false, not, ◌&&◌, ◌||◌, [],
  ◌∷◌, Bytes, arith, ltb, ◌==◌, if◌then◌else◌, length, get_or, set, length-set, get_or-set_self,
  get_or-set_ne, All, Bool-cases, inl, inr, and_left, and_right, ==_iff, ltb→lt, every_under,
  every_under-elem,
}
use bug_han.Hll.{has_bit}

pub bool_eq : Bool → Bool → Bool
bool_eq true b = b
bool_eq false b = not b

pub bool_eq_sound : (a b : Bool) → bool_eq a b ≡ true → a ≡ b
unfolding bool_eq
bool_eq_sound a b h = ground arith

-- setting bit j of a byte sets that bit and no other, and leaves a byte
pub set_bit_test : ℕ → ℕ → ℕ → Bool
unfolding bool_eq
set_bit_test x j k =
    bool_eq (has_bit (bit_or x (2 ^ j)) k) (j == k || has_bit x k) && ltb (bit_or x (2 ^ j)) 256

pub set_bit_table :
    every_under (λ x. every_under (λ j. every_under (λ k. set_bit_test x j k) 8) 8) 256 ≡ true
unfolding set_bit_test has_bit
set_bit_table = refl

pub set_bit_holds : (x j k : ℕ) → x < 256 → j < 8 → k < 8 → set_bit_test x j k ≡ true
set_bit_holds x j k hx hj hk =
    every_under-elem (set_bit_test x j) 8
      (every_under-elem (λ j. every_under (λ k. set_bit_test x j k) 8) 8
        (every_under-elem (λ x. every_under (λ j. every_under (λ k. set_bit_test x j k) 8) 8) 256
          set_bit_table x hx)
        j hj)
      k hk

pub set_bit_lem :
    (x j k : ℕ)
    → x < 256
    → j < 8
    → k < 8
    → (has_bit (bit_or x (2 ^ j)) k ≡ (j == k || has_bit x k)) × (bit_or x (2 ^ j) < 256)
unfolding set_bit_test
set_bit_lem x j k hx hj hk = (
  bool_eq_sound _ _ (and_left _ (ltb (bit_or x (2 ^ j)) 256) (set_bit_holds x j k hx hj hk)),
  ltb→lt _ _ (
      and_right (bool_eq (has_bit (bit_or x (2 ^ j)) k) (j == k || has_bit x k)) _
        (set_bit_holds x j k hx hj hk)),
)

-- the bits of a register, from the lowest, put together
unfoldable pub assemble : ℕ → ℕ → ℕ → ℕ → ℕ
assemble zero x b r = r
assemble (suc n) x b r = assemble n x (b + 1) (if has_bit x b then bit_or r (2 ^ b) else r)

pub assemble_table : every_under (λ x. assemble 6 x 0 0 == x) 64 ≡ true
unfolding assemble has_bit
assemble_table = refl

pub assemble_lem : (x : ℕ) → x < 64 → assemble 6 x 0 0 ≡ x
assemble_lem x h =
    (==_iff _ x).0 (every_under-elem (λ x. assemble 6 x 0 0 == x) 64 assemble_table x h)

-- bit i of a blob
unfoldable pub bit_in : Bytes → ℕ → Bool
bit_in blob i = has_bit (get_or blob (i / 8) 0) (i % 8)

abbrev pub AreBytes : Bytes → Type 0
AreBytes = All (λ x. x < 256)

pub get_or-AreBytes : (blob : Bytes) (i : ℕ) → AreBytes blob → get_or blob i 0 < 256
get_or-AreBytes [] i h = omega arith
get_or-AreBytes (x ∷ blob) zero (hx, h) = hx
get_or-AreBytes (x ∷ blob) (suc i) (hx, h) = get_or-AreBytes blob i h

pub set-AreBytes : (blob : Bytes) (i v : ℕ) → AreBytes blob → v < 256 → AreBytes (set blob i v)
set-AreBytes [] i v h hv = tt
set-AreBytes (x ∷ blob) zero v (hx, h) hv = (hv, h)
set-AreBytes (x ∷ blob) (suc i) v (hx, h) hv = (hx, set-AreBytes blob i v h hv)

-- the blob after `blob[bit/8] |= 1 << (bit % 8)`
unfoldable pub put_bit : Bytes → ℕ → Bytes
put_bit blob bit = set blob (bit / 8) (bit_or (get_or blob (bit / 8) 0) (2 ^ (bit % 8)))

pub bit_in-put_bit :
    (blob : Bytes) (bit i : ℕ)
    → AreBytes blob
    → bit < length blob * 8
    → bit_in (put_bit blob bit) i ≡ (bit == i || bit_in blob i)
unfolding bit_in put_bit
bit_in-put_bit blob bit i h room = elim (Bool-cases (bit / 8 == i / 8)) [
  | inl e ↦
      rw
        (
          ← (==_iff _ _).0 e,
          get_or-set_self blob (bit / 8) (bit_or (get_or blob (bit / 8) 0) (2 ^ (bit % 8))) 0
              (omega arith),
          (set_bit_lem (get_or blob (bit / 8) 0) (bit % 8) (i % 8) (get_or-AreBytes blob _ h)
              (omega arith) (omega arith)).0,
        )
        (ground arith)
  | inr e ↦
      rw
        (get_or-set_ne blob (bit / 8) (i / 8) (bit_or (get_or blob (bit / 8) 0) (2 ^ (bit % 8))) 0
          (ground arith))
        (ground arith)
]

pub put_bit-AreBytes : (blob : Bytes) (bit : ℕ) → AreBytes blob → AreBytes (put_bit blob bit)
unfolding put_bit
put_bit-AreBytes blob bit h =
    set-AreBytes blob _ _ h
      (set_bit_lem _ _ 0 (get_or-AreBytes blob _ h) (omega arith) (omega arith)).1

pub length-put_bit : (blob : Bytes) (bit : ℕ) → length (put_bit blob bit) ≡ length blob
unfolding put_bit
length-put_bit blob bit = length-set blob _ _
