-- ===== src/Hll/Blob.antt =====
-- The round trip of MarshalBinary and UnmarshalBinary.
use Prim.Native.Nat.{bit_and-bitwise}
use bug_han.Prelude.{
  ℕ, zero, suc, ◌+◌, ◌-◌, ◌*◌, ◌/◌, ◌%◌, ◌^◌, ◌<◌, ◌≤◌, ◌≡◌, refl, ap, ap₂, ◌∙◌, subst, false, some,
  List, [], ◌∷◌, Bytes, arith, length, get_or, replicate, length-replicate, All,
}
use bug_han.Hll.{
  Sketch, register_count, blob_size, has_bit, pack_bits, pack_registers, marshal_binary,
  unpack_registers, unmarshal_binary,
}
use bug_han.Hll.Merge.{IsValid}
use bug_han.Hll.Bits.{assemble_lem, bit_in, AreBytes}
use bug_han.Hll.Packing.{Packs, pack_bits-Packs, unpack_bits-assemble}

-- the room that the registers which are left need
abbrev HasRoom : Bytes × ℕ → List ℕ → Type 0
HasRoom st rs = AreBytes st.0 × (st.1 + length rs * 6 ≤ length st.0 * 8)

after_register :
    (st : Bytes × ℕ) (r : ℕ) (rs : List ℕ)
    → HasRoom st (r ∷ rs)
    → Packs 6 r 0 st.1 st.0 (pack_bits 6 r 0 st)
after_register st r rs h = pack_bits-Packs 6 r 0 st.0 st.1 h.0 (omega arith)

HasRoom-after :
    (st : Bytes × ℕ) (r : ℕ) (rs : List ℕ) → HasRoom st (r ∷ rs) → HasRoom (pack_bits 6 r 0 st) rs
HasRoom-after st r rs h =
    let p : Packs 6 r 0 st.1 st.0 (pack_bits 6 r 0 st) = after_register st r rs h in
    (p.bytes, omega (arith, p.cursor, p.size))

-- later registers leave the bits below the cursor alone
pack_registers-keeps :
    (rs : List ℕ) (st : Bytes × ℕ) (i : ℕ)
    → HasRoom st rs
    → i < st.1
    → bit_in (pack_registers st rs).0 i ≡ bit_in st.0 i
unfolding pack_registers
pack_registers-keeps [] st i h lt = refl
pack_registers-keeps (r ∷ rs) st i h lt =
    let p : Packs 6 r 0 st.1 st.0 (pack_bits 6 r 0 st) = after_register st r rs h in
    pack_registers-keeps rs (pack_bits 6 r 0 st) i (HasRoom-after st r rs h)
      (omega (arith, p.cursor))
    ∙ ground (arith, p.bits i)

-- the six bits behind the cursor are those of the register just written
read_back :
    (st : Bytes × ℕ) (r : ℕ) (rs : List ℕ) (k : ℕ)
    → HasRoom st (r ∷ rs)
    → bit_in st.0 (st.1 + k) ≡ false
    → k < 6
    → bit_in (pack_registers (pack_bits 6 r 0 st) rs).0 (st.1 + k) ≡ has_bit r (0 + k)
read_back st r rs k h clean lt =
    let p : Packs 6 r 0 st.1 st.0 (pack_bits 6 r 0 st) = after_register st r rs h in
    let same : 0 + (st.1 + k - st.1) ≡ 0 + k = omega arith in
    pack_registers-keeps rs (pack_bits 6 r 0 st) (st.1 + k) (HasRoom-after st r rs h)
      (omega (arith, p.cursor))
    ∙ ground (arith, p.bits (st.1 + k), ap (has_bit r) same)

still_clean :
    (st : Bytes × ℕ) (r : ℕ) (rs : List ℕ) (i : ℕ)
    → HasRoom st (r ∷ rs)
    → bit_in st.0 i ≡ false
    → (pack_bits 6 r 0 st).1 ≤ i
    → bit_in (pack_bits 6 r 0 st).0 i ≡ false
still_clean st r rs i h clean le =
    let p : Packs 6 r 0 st.1 st.0 (pack_bits 6 r 0 st) = after_register st r rs h in
    ground (arith, p.bits i, p.cursor)

unpack-pack_registers :
    (rs : List ℕ) (st : Bytes × ℕ)
    → HasRoom st rs
    → All (λ r. r < 64) rs
    → ((i : ℕ) → st.1 ≤ i → bit_in st.0 i ≡ false)
    → unpack_registers (length rs) (pack_registers st rs).0 st.1 ≡ rs
unfolding unpack_registers pack_registers
unpack-pack_registers [] st h small clean = refl
unpack-pack_registers (r ∷ rs) st h (hr, small) clean =
    let p : Packs 6 r 0 st.1 st.0 (pack_bits 6 r 0 st) = after_register st r rs h in
    let rest : unpack_registers (length rs) (pack_registers (pack_bits 6 r 0 st) rs).0
          (pack_bits 6 r 0 st).1
        ≡ rs =
      unpack-pack_registers rs (pack_bits 6 r 0 st) (HasRoom-after st r rs h) small
        (λ i le. still_clean st r rs i h (clean i (omega (arith, p.cursor))) le) in
    ap₂ (λ (x : ℕ) xs. x ∷ xs)
      (unpack_bits-assemble 6 (pack_registers (pack_bits 6 r 0 st) rs).0 st.1 0 0 r
          (λ k lt. read_back st r rs k h (clean (st.1 + k) (omega arith)) lt)
        ∙ assemble_lem r hr)
      (subst (λ c. unpack_registers (length rs) (pack_registers (pack_bits 6 r 0 st) rs).0 c ≡ rs)
        p.cursor rest)

length-pack_registers :
    (rs : List ℕ) (st : Bytes × ℕ) → HasRoom st rs → length (pack_registers st rs).0 ≡ length st.0
unfolding pack_registers
length-pack_registers [] st h = refl
length-pack_registers (r ∷ rs) st h =
    length-pack_registers rs (pack_bits 6 r 0 st) (HasRoom-after st r rs h)
    ∙ (after_register st r rs h).size

get_or-replicate : (n i : ℕ) → get_or (replicate n 0) i 0 ≡ zero
get_or-replicate zero i = refl
get_or-replicate (suc n) zero = refl
get_or-replicate (suc n) (suc i) = get_or-replicate n i

has_bit-zero : (k : ℕ) → has_bit 0 k ≡ false
unfolding has_bit
has_bit-zero k = rw (bit_and-bitwise 0 (2 ^ k))

zeros_clean : (n i : ℕ) → bit_in (replicate n 0) i ≡ false
unfolding bit_in
zeros_clean n i = rw (get_or-replicate n (i / 8)) (has_bit-zero (i % 8))

zeros_bytes : (n : ℕ) → AreBytes (replicate n 0)
zeros_bytes zero = tt
zeros_bytes (suc n) = (omega arith, zeros_bytes n)

zeros_room : (n : ℕ) (rs : List ℕ) → length rs * 6 ≤ n * 8 → HasRoom (replicate n 0, 0) rs
zeros_room n rs h = (zeros_bytes n, omega (arith, length-replicate {A = ℕ} n 0))

unmarshal_lem :
    (blob : Bytes) (rs : List ℕ)
    → length blob ≡ blob_size
    → unpack_registers register_count blob 0 ≡ rs
    → unmarshal_binary blob ≡ some (record { registers = rs })
unfolding unmarshal_binary
unmarshal_lem blob rs h e = ground arith

-- Restoring a stored sketch gives the sketch back: UnmarshalBinary accepts what MarshalBinary writes
-- for any sketch of 4096 six-bit registers, and returns an equal sketch.
pub unmarshal-marshal : (s : Sketch) → IsValid s → unmarshal_binary (marshal_binary s) ≡ some s
unfolding marshal_binary
unmarshal-marshal s v =
    let start : Bytes × ℕ = (replicate blob_size 0, 0) in
    let room : HasRoom start s.registers =
      zeros_room blob_size s.registers (omega (arith, v.count)) in
    unmarshal_lem (pack_registers start s.registers).0 s.registers
      (length-pack_registers s.registers start room ∙ length-replicate {A = ℕ} blob_size 0)
      (subst (λ n. unpack_registers n (pack_registers start s.registers).0 0 ≡ s.registers) v.count
        (unpack-pack_registers s.registers start room v.six_bits (λ i _. zeros_clean blob_size i)))
