-- ===== src/SourceMap/Vlq/RoundTrip.antt =====
-- Decoding the VLQ encoding of source map v3 gives the fields back.
use native.Mathlib.Nat.{pow-suc, pow-le-pow_right}
use native.Mathlib.Decide.{dec_lt}
use bug_han.Prelude.{
  ℕ, zero, suc, ◌+◌, ◌*◌, ◌/◌, ◌%◌, ◌^◌, ◌<◌, ◌≤◌, ◌≡◌, refl, ◌∙◌, ap, true, false, List, [], ◌∷◌,
  ◌++◌, append_assoc, append-nil, Bytes, arith, ltb, if◌then◌else◌, All,
}
use bug_han.Prelude.Int.{ℤ, pos, negsuc}
use bug_han.SourceMap.Vlq.{
  ok, signed64, half_signed, field_of, add_digit, decode_loop, decode_vlq_segment,
}
use bug_han.SourceMap.Vlq.Digits.{b64char, digit_lem, bit_or-add, bit_and-one}

-- The encoding of the source map format: the sign is the lowest bit, then groups of five bits from
-- the lowest, each but the last with the continuation bit 32.
unfoldable pub vlq_value : ℤ → ℕ
vlq_value (pos n) = n * 2
vlq_value (negsuc n) = (n + 1) * 2 + 1

pub encode_groups : ℕ → ℕ → Bytes
encode_groups zero v = []
encode_groups (suc n) v =
    let more = b64char (32 + v % 32) ∷ encode_groups n (v / 32) in
    if ltb v 32 then b64char v ∷ [] else more

pub encode_field : ℤ → Bytes
encode_field z = encode_groups 13 (vlq_value z)

pub encode_segment : List ℤ → Bytes
encode_segment [] = []
encode_segment (z ∷ zs) = encode_field z ++ encode_segment zs

-- the integers that fit: -2^62 < z < 2^62
abbrev pub Fits : ℤ → Type 0
Fits z = vlq_value z < 2 ^ 63

field_of-vlq_value : (z : ℤ) → Fits z → field_of (vlq_value z) ≡ z
unfolding field_of half_signed signed64 vlq_value
field_of-vlq_value (pos n) h = ground (arith, bit_and-one (n * 2))
field_of-vlq_value (negsuc n) h = ground (arith, bit_and-one ((n + 1) * 2 + 1))

add_digit_lem :
    (value d shift : ℕ)
    → d < 64
    → value < 2 ^ shift
    → value + d % 32 * 2 ^ shift < 2 ^ 63
    → add_digit value d shift ≡ value + d % 32 * 2 ^ shift
unfolding add_digit
add_digit_lem value d shift hd hv fits =
    let whole : d % 32 * 2 ^ shift % 2 ^ 64 ≡ d % 32 * 2 ^ shift = omega arith in
    rw ((digit_lem d hd).1, whole) (bit_or-add shift value (d % 32) hv)

-- a character without the continuation bit ends a field
decode_loop_last :
    (d : ℕ) (s : Bytes) (out : List ℤ) (value shift : ℕ)
    → d < 32
    → decode_loop (b64char d ∷ s) out value shift
      ≡ decode_loop s (out ++ field_of (add_digit value d shift) ∷ []) 0 0
unfolding decode_loop
decode_loop_last d s out value shift h = ground (arith, digit_lem d (omega arith))

-- a character with the continuation bit goes on to the next group
decode_loop_more :
    (d : ℕ) (s : Bytes) (out : List ℤ) (value shift : ℕ)
    → d < 32
    → shift + 5 ≤ 60
    → decode_loop (b64char (32 + d) ∷ s) out value shift
      ≡ decode_loop s out (add_digit value (32 + d) shift) (shift + 5)
unfolding decode_loop
decode_loop_more d s out value shift h fits = ground (arith, digit_lem (32 + d) (omega arith))

pow_group : (j : ℕ) → 2 ^ (5 * suc j) ≡ 32 * 2 ^ (5 * j)
pow_group j =
    let shape : 5 * suc j ≡ suc (suc (suc (suc (suc (5 * j))))) = omega arith in
    rw shape (
      omega (
        arith,
        pow-suc 2 (5 * j),
        pow-suc 2 (suc (5 * j)),
        pow-suc 2 (suc (suc (5 * j))),
        pow-suc 2 (suc (suc (suc (5 * j)))),
        pow-suc 2 (suc (suc (suc (suc (5 * j))))),
      ))

groups_fit : (j : ℕ) → 32 * 2 ^ (5 * j) < 2 ^ 63 → 5 * j + 5 ≤ 60
groups_fit j h = elim (dec_lt 11 j) [
  | no small ↦ omega arith
  | yes big ↦
      absurd
        (omega (arith, pow-le-pow_right {n = 2} (omega arith) {i = 60} {j = 5 * j} (omega arith)))
]

product_mono : (a b p : ℕ) → a ≤ b → a * p ≤ b * p
product_mono a b p h = grind arith

group_split : (v p : ℕ) → v % 32 * p + v / 32 * (32 * p) ≡ v * p
group_split v p =
    let parts : v / 32 * 32 + v % 32 ≡ v = omega arith in
    (grind arith) ∙ ap (λ (w : ℕ). w * p) parts

-- the last group of a field
decode_last :
    (n v acc j : ℕ) (rest : Bytes) (out : List ℤ)
    → v < 32
    → acc < 2 ^ (5 * j)
    → acc + v * 2 ^ (5 * j) < 2 ^ 63
    → decode_loop (encode_groups (suc n) v ++ rest) out acc (5 * j)
      ≡ decode_loop rest (out ++ field_of (acc + v * 2 ^ (5 * j)) ∷ []) 0 0
unfolding encode_groups
decode_last n v acc j rest out small low fits =
    let whole : v % 32 ≡ v = omega arith in
    let test : ltb v 32 ≡ true = ground arith in
    let added : add_digit acc v (5 * j) ≡ acc + v * 2 ^ (5 * j) =
      add_digit_lem acc v (5 * j) (omega arith) low (rw whole fits)
      ∙ ap (λ (w : ℕ). acc + w * 2 ^ (5 * j)) whole in
    rw test (decode_loop_last v rest out acc (5 * j) small ∙ rw added refl)

-- a group with more behind it
decode_more :
    (n v acc j : ℕ) (rest : Bytes) (out : List ℤ)
    → 32 ≤ v
    → acc < 2 ^ (5 * j)
    → acc + v * 2 ^ (5 * j) < 2 ^ 63
    → decode_loop (encode_groups (suc n) v ++ rest) out acc (5 * j)
      ≡ decode_loop (encode_groups n (v / 32) ++ rest) out (acc + v % 32 * 2 ^ (5 * j)) (5 * suc j)
unfolding encode_groups
decode_more n v acc j rest out large low fits =
    let digit : (32 + v % 32) % 32 ≡ v % 32 = omega arith in
    let test : ltb v 32 ≡ false = ground arith in
    let added : add_digit acc (32 + v % 32) (5 * j) ≡ acc + v % 32 * 2 ^ (5 * j) =
      add_digit_lem acc (32 + v % 32) (5 * j) (omega arith) low
        (rw digit (omega (arith, group_split v (2 ^ (5 * j)))))
      ∙ ap (λ (w : ℕ). acc + w * 2 ^ (5 * j)) digit in
    let next : 5 * j + 5 ≡ 5 * suc j = omega arith in
    rw test (
      decode_loop_more (v % 32) (encode_groups n (v / 32) ++ rest) out acc (5 * j) (omega arith)
        (groups_fit j (omega (arith, product_mono 32 v (2 ^ (5 * j)) large)))
      ∙ rw (added, next) refl)

groups_decode :
    (n v acc j : ℕ) (rest : Bytes) (out : List ℤ)
    → v < 32 ^ suc n
    → acc < 2 ^ (5 * j)
    → acc + v * 2 ^ (5 * j) < 2 ^ 63
    → decode_loop (encode_groups (suc n) v ++ rest) out acc (5 * j)
      ≡ decode_loop rest (out ++ field_of (acc + v * 2 ^ (5 * j)) ∷ []) 0 0
groups_decode zero v acc j rest out fuel low fits = decode_last zero v acc j rest out fuel low fits
groups_decode (suc n) v acc j rest out fuel low fits = elim (dec_lt v 32) [
  | yes last ↦ decode_last (suc n) v acc j rest out last low fits
  | no more ↦
      let whole : acc + v % 32 * 2 ^ (5 * j) + v / 32 * 2 ^ (5 * suc j) ≡ acc + v * 2 ^ (5 * j) =
        rw (pow_group j) (omega (arith, group_split v (2 ^ (5 * j)))) in
      decode_more (suc n) v acc j rest out (omega arith) low fits
      ∙ groups_decode n (v / 32) (acc + v % 32 * 2 ^ (5 * j)) (suc j) rest out
          (omega (arith, pow-suc 32 (suc n)))
          (rw (pow_group j) (omega (arith, product_mono (v % 32) 31 (2 ^ (5 * j)) (omega arith))))
          (omega arith)
      ∙ rw whole refl
]

field_decode :
    (z : ℤ) (rest : Bytes) (out : List ℤ)
    → Fits z
    → decode_loop (encode_field z ++ rest) out 0 0 ≡ decode_loop rest (out ++ z ∷ []) 0 0
unfolding encode_field
field_decode z rest out h =
    groups_decode 12 (vlq_value z) 0 0 rest out (omega arith) (omega arith) (omega arith)
    ∙ ap (λ x. decode_loop rest (out ++ x ∷ []) 0 0)
        (ap field_of (omega arith) ∙ field_of-vlq_value z h)

segment_decode :
    (zs : List ℤ) (out : List ℤ)
    → All Fits zs
    → decode_loop (encode_segment zs) out 0 0 ≡ ok (out ++ zs)
unfolding encode_segment
segment_decode [] out h = unfold decode_loop in rw append-nil
segment_decode (z ∷ zs) out (hz, h) =
    field_decode z (encode_segment zs) out hz
    ∙ segment_decode zs (out ++ z ∷ []) h
    ∙ rw append_assoc refl

-- Decoding the VLQ encoding of any fields between -2^62 and 2^62 gives these fields back, whatever
-- their number.
pub decode-encode_segment :
    (zs : List ℤ) → All Fits zs → decode_vlq_segment (encode_segment zs) ≡ ok zs
unfolding decode_vlq_segment
decode-encode_segment zs h = segment_decode zs [] h
