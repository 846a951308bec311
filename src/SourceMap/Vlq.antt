-- ===== src/SourceMap/Vlq.antt =====
-- internal/sourcemap/vlq.go: the base64 digits and the VLQ decoder. An int64 is its bit pattern,
-- a number below 2 ^ 64; the decoded fields are the signed integers that the patterns stand for.
mod Digits
pub mod RoundTrip
use Prim.Native.Nat.{bit_and, bit_or}
use bug_han.Prelude.{
  ℕ, zero, suc, ◌+◌, ◌-◌, ◌*◌, ◌/◌, ◌%◌, ◌^◌, Bool, true, false, not, ◌≡◌, refl, Option, none, some,
  List, [], ◌∷◌, ◌++◌, Bytes, codes, ltb, ◌==◌, if◌then◌else◌,
}
use bug_han.Prelude.Int.{ℤ, pos, negsuc}

-- b64chars
abbrev pub b64chars : Bytes
b64chars = codes "ABCDEFGHIJKLMNOPQRSTUVWXYZabcdefghijklmnopqrstuvwxyz0123456789+/"

-- the loop that fills b64index: the last position of a character wins, -1 is `none`
pub fill : Bytes → ℕ → ℕ → Option ℕ → Option ℕ
fill [] i c found = found
fill (b ∷ chars) i c found = fill chars (i + 1) c (if b == c then some i else found)

pub b64index : ℕ → Option ℕ
b64index c = fill b64chars 0 c none

pub data VlqError : Type 0 where
  invalid_char value_too_large truncated : VlqError

pub data Result {ℓ} (A : Type ℓ) : Type ℓ where
  ok : A → Result A
  err : VlqError → Result A

-- the integer that a pattern of 64 bits stands for
unfoldable pub signed64 : ℕ → ℤ
signed64 w = if ltb w (2 ^ 63) then pos w else negsuc (2 ^ 64 - w - 1)

-- x >> 1 on int64: the sign bit stays
pub half_signed : ℕ → ℕ
half_signed w = if ltb w (2 ^ 63) then w / 2 else w / 2 + 2 ^ 63

-- `v := value >> 1; if value&1 != 0 { v = -v }`
pub field_of : ℕ → ℤ
field_of value =
    let v = half_signed value in
    if not (bit_and value 1 == 0) then signed64 ((2 ^ 64 - v) % 2 ^ 64) else signed64 v

-- `value |= int64(d&31) << shift`
pub add_digit : ℕ → ℕ → ℕ → ℕ
add_digit value d shift = bit_or value (bit_and d 31 * 2 ^ shift % 2 ^ 64)

-- decodeVLQSegment: the loop over the characters
pub decode_loop : Bytes → List ℤ → ℕ → ℕ → Result (List ℤ)
decode_loop [] out value shift = if not (shift == 0) then err truncated else ok out
decode_loop (c ∷ s) out value shift = elim (b64index c) [
  | none ↦ err invalid_char
  | some d ↦
      let value' = add_digit value d shift in
      let more = decode_loop s out value' (shift + 5) in
      let next = decode_loop s (out ++ field_of value' ∷ []) 0 0 in
      if not (bit_and d 32 == 0)
      then if ltb 60 (shift + 5) then err value_too_large else more
      else next
]

pub decode_vlq_segment : Bytes → Result (List ℤ)
decode_vlq_segment s = decode_loop s [] 0 0

segment_runs :
    decode_vlq_segment (codes "gB2HAAC") ≡ ok (pos 16 ∷ pos 123 ∷ pos 0 ∷ pos 0 ∷ pos 1 ∷ [])
unfolding decode_vlq_segment decode_loop b64index fill add_digit field_of half_signed signed64
segment_runs = refl
