-- ===== src/Hll.antt =====
-- The HyperLogLog sketch of internal/hll/hll.go. A sketch is its list of 4096 registers; a register
-- is a byte, and a 64-bit hash is a number below 2 ^ 64 with the shifts' wrap-around written out.
-- SHA-256 is a parameter: the digest of a value as a list of bytes.
pub mod Rank
pub mod Merge
pub mod Union
mod Bits
mod Packing
pub mod Blob
pub mod Tests
use Prim.Native.Nat.{bit_and, bit_or}
use bug_han.Prelude.{
  ℕ, zero, suc, ◌+◌, ◌-◌, ◌*◌, ◌/◌, ◌%◌, ◌^◌, Bool, true, false, not, ◌&&◌, Option, none, some,
  List, [], ◌∷◌, Bytes, ltb, ◌==◌, if◌then◌else◌, length, get_or, set, take, replicate, foldl,
}

-- p, m and blobSize
abbrev pub index_bits : ℕ
index_bits = 12

abbrev pub register_count : ℕ
register_count = 2 ^ index_bits

abbrev pub blob_size : ℕ
blob_size = register_count * 6 / 8

pub record Sketch : Type 0 where
  pub registers : List ℕ

-- New
pub empty : Sketch
empty = record { registers = replicate register_count 0 }

-- `for rank < 63 && remainder>>63 == 0 { remainder <<= 1; rank++ }` with a bound on the rounds
pub rank_loop : ℕ → ℕ → ℕ → ℕ
rank_loop zero rank remainder = rank
rank_loop (suc fuel) rank remainder =
    let next = rank_loop fuel (rank + 1) (remainder * 2 % 2 ^ 64) in
    if ltb rank 63 && (remainder / 2 ^ 63 == 0) then next else rank

pub rank_of : ℕ → ℕ
rank_of h = rank_loop 63 1 (h * 2 ^ index_bits % 2 ^ 64)

pub index_of : ℕ → ℕ
index_of h = h / 2 ^ (64 - index_bits)

-- `if rank > registers[i] { registers[i] = rank }`
pub raise : ℕ → ℕ → List ℕ → List ℕ
raise i rank registers = if ltb (get_or registers i 0) rank then set registers i rank else registers

-- InsertHash
pub insert_hash : Sketch → ℕ → Sketch
insert_hash s h = record { registers = raise (index_of h) (rank_of h) s.registers }

-- binary.BigEndian.Uint64
pub big_endian : Bytes → ℕ
big_endian bytes = foldl (λ n b. n * 256 + b) 0 bytes

-- Insert and InsertAll
module _ (sha256 : Bytes → Bytes) where
  pub insert : Sketch → Bytes → Sketch
  insert s v = insert_hash s (big_endian (take 8 (sha256 v)))

  pub insert_all : Sketch → List Bytes → Sketch
  insert_all s vs = foldl insert s vs

-- the loop of Merge over the registers of `other`
pub merge_registers : List ℕ → List ℕ → List ℕ
merge_registers [] other = []
merge_registers (x ∷ xs) [] = x ∷ xs
merge_registers (x ∷ xs) (r ∷ other) = (if ltb x r then r else x) ∷ merge_registers xs other

-- Merge
pub merge : Sketch → Sketch → Sketch
merge s other = record { registers = merge_registers s.registers other.registers }

-- `x & (1 << k) != 0`
pub has_bit : ℕ → ℕ → Bool
has_bit x k = not (bit_and x (2 ^ k) == 0)

-- `if r&(1<<b) != 0 { blob[bit/8] |= 1 << (bit % 8) }; bit++`
pub pack_bit : ℕ → ℕ → Bytes × ℕ → Bytes × ℕ
pack_bit r b (blob, bit) = (
  if has_bit r b
      then set blob (bit / 8) (bit_or (get_or blob (bit / 8) 0) (2 ^ (bit % 8)))
      else blob,
  bit + 1,
)

-- the inner loop of MarshalBinary, with the rounds that are left
pub pack_bits : ℕ → ℕ → ℕ → Bytes × ℕ → Bytes × ℕ
pack_bits zero r b st = st
pack_bits (suc n) r b st = pack_bits n r (b + 1) (pack_bit r b st)

-- MarshalBinary
pub pack_registers : Bytes × ℕ → List ℕ → Bytes × ℕ
pack_registers st registers = foldl (λ st r. pack_bits 6 r 0 st) st registers

pub marshal_binary : Sketch → Bytes
marshal_binary s = (pack_registers (replicate blob_size 0, 0) s.registers).0

-- the inner loop of UnmarshalBinary, with the rounds that are left
pub unpack_bits : ℕ → Bytes → ℕ → ℕ → ℕ → ℕ
unpack_bits zero blob bit b r = r
unpack_bits (suc n) blob bit b r =
    unpack_bits n blob (bit + 1) (b + 1)
      (if has_bit (get_or blob (bit / 8) 0) (bit % 8) then bit_or r (2 ^ b) else r)

-- the loop of UnmarshalBinary over the registers that are left
pub unpack_registers : ℕ → Bytes → ℕ → List ℕ
unpack_registers zero blob bit = []
unpack_registers (suc n) blob bit = unpack_bits 6 blob bit 0 0 ∷ unpack_registers n blob (bit + 6)

-- UnmarshalBinary; `none` is its error
pub unmarshal_binary : Bytes → Option Sketch
unmarshal_binary blob =
    if length blob == blob_size
    then some (record { registers = unpack_registers register_count blob 0 })
    else none
