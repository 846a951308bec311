-- ===== src/Hll/Packing.antt =====
-- What the inner loops of MarshalBinary and UnmarshalBinary do to one register.
use Prim.Native.Nat.{bit_or}
use native.Mathlib.Decide.{dec_lt}
use native.Mathlib.Nat.{add-zero}
use bug_han.Prelude.{
  ℕ, zero, suc, ◌+◌, ◌-◌, ◌*◌, ◌/◌, ◌%◌, ◌^◌, ◌<◌, ◌≤◌, ◌≡◌, refl, ap, ◌∙◌, true, false, ◌&&◌, ◌||◌,
  Bytes, arith, ltb, leb, ◌==◌, if◌then◌else◌, length, get_or,
}
use bug_han.Hll.{has_bit, pack_bit, pack_bits, unpack_bits}
use bug_han.Hll.Bits.{
  assemble, bit_in, AreBytes, put_bit, bit_in-put_bit, put_bit-AreBytes, length-put_bit,
}

-- the blob after one round of the inner loop
pub packed : ℕ → ℕ → Bytes → ℕ → Bytes
packed r b blob bit = if has_bit r b then put_bit blob bit else blob

pub pack_bits-suc :
    (n r b : ℕ) (blob : Bytes) (bit : ℕ)
    → pack_bits (suc n) r b (blob, bit) ≡ pack_bits n r (b + 1) (packed r b blob bit, bit + 1)
unfolding pack_bits pack_bit packed put_bit
pack_bits-suc n r b blob bit = refl

pub length-packed : (r b : ℕ) (blob : Bytes) (bit : ℕ) → length (packed r b blob bit) ≡ length blob
unfolding packed
length-packed r b blob bit = ground (arith, length-put_bit blob bit)

pub packed-AreBytes :
    (r b : ℕ) (blob : Bytes) (bit : ℕ) → AreBytes blob → AreBytes (packed r b blob bit)
unfolding packed
packed-AreBytes r b blob bit h =
    elim (has_bit r b) as (λ t. AreBytes (if t then put_bit blob bit else blob)) [
      | true ↦ put_bit-AreBytes blob bit h
      | false ↦ h
    ]

pub bit_in-packed :
    (r b : ℕ) (blob : Bytes) (bit i : ℕ)
    → AreBytes blob
    → bit < length blob * 8
    → bit_in (packed r b blob bit) i ≡ (bit == i && has_bit r b || bit_in blob i)
unfolding packed
bit_in-packed r b blob bit i h room = ground (arith, bit_in-put_bit blob bit i h room)

-- what the rounds that are left do to a blob
pub record Packs (n r b bit : ℕ) (blob : Bytes) (out : Bytes × ℕ) : Type 0 where
  pub cursor : out.1 ≡ bit + n
  pub size : length out.0 ≡ length blob
  pub bytes : AreBytes out.0
  pub bits :
      (i : ℕ)
      → bit_in out.0 i
        ≡ (leb bit i && ltb i (bit + n) && has_bit r (b + (i - bit)) || bit_in blob i)

pub Packs-suc :
    (n r b bit : ℕ) (blob : Bytes) (out : Bytes × ℕ)
    → AreBytes blob
    → bit < length blob * 8
    → Packs n r (b + 1) (bit + 1) (packed r b blob bit) out
    → Packs (suc n) r b bit blob out
Packs-suc n r b bit blob out h room rest = record {
  cursor = omega (arith, rest.cursor);
  size = rest.size ∙ length-packed r b blob bit;
  bytes = rest.bytes;
  bits = λ i. elim (dec_lt bit i) [
    | yes past ↦
        let same : b + 1 + (i - (bit + 1)) ≡ b + (i - bit) = omega arith in
        ground (arith, rest.bits i, bit_in-packed r b blob bit i h room, ap (has_bit r) same)
    | no upto ↦ elim (dec_lt i bit) [
      | yes before ↦ ground (arith, rest.bits i, bit_in-packed r b blob bit i h room)
      | no not_before ↦
          let same : b ≡ b + (i - bit) = omega arith in
          ground (arith, rest.bits i, bit_in-packed r b blob bit i h room, ap (has_bit r) same)
    ]
  ];
}

pub pack_bits-Packs :
    (n r b : ℕ) (blob : Bytes) (bit : ℕ)
    → AreBytes blob
    → bit + n ≤ length blob * 8
    → Packs n r b bit blob (pack_bits n r b (blob, bit))
pack_bits-Packs zero r b blob bit h room =
    unfold pack_bits in
    record { cursor = omega arith; size = refl; bytes = h; bits = λ i. ground arith }
pack_bits-Packs (suc n) r b blob bit h room = rw pack_bits-suc (
    Packs-suc n r b bit blob _ h (omega arith) (
      pack_bits-Packs n r (b + 1) (packed r b blob bit) (bit + 1) (packed-AreBytes r b blob bit h)
        (omega (arith, length-packed r b blob bit))))

-- reading bits back that agree with a register gives the register
pub unpack_bits-assemble :
    (n : ℕ) (blob : Bytes) (bit b acc x : ℕ)
    → ((k : ℕ) → k < n → bit_in blob (bit + k) ≡ has_bit x (b + k))
    → unpack_bits n blob bit b acc ≡ assemble n x b acc
unfolding unpack_bits assemble bit_in
unpack_bits-assemble zero blob bit b acc x h = refl
unpack_bits-assemble (suc n) blob bit b acc x h =
    let here : has_bit (get_or blob (bit / 8) 0) (bit % 8) ≡ has_bit x b =
      rw (add-zero bit, add-zero b) at (h 0 (omega arith)) in
    rw here (
      unpack_bits-assemble n blob (bit + 1) (b + 1)
        (if has_bit x b then bit_or acc (2 ^ b) else acc) x
        (λ k lt.
          let cursor : bit + 1 + k ≡ bit + suc k = omega arith in
          let digit : b + 1 + k ≡ b + suc k = omega arith in
          rw (cursor, digit) (h (suc k) (omega arith))))
