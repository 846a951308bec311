-- ===== src/Hll/Merge.antt =====
-- Merging sketches: its laws, and the sketches that stay well-formed.
use bug_han.Prelude.{
  ℕ, zero, suc, ◌<◌, ◌≡◌, refl, ap, ap₂, ◌∙◌, sym, subst, List, [], ◌∷◌, arith, length, replicate,
  length-set, length-replicate, All,
}
use bug_han.Hll.{
  Sketch, empty, register_count, raise, insert_hash, index_of, rank_of, merge_registers, merge,
}
use bug_han.Hll.Rank.{rank_of_bounds}

-- A sketch that the program can hold: 4096 registers of at most six bits.
pub record IsValid (s : Sketch) : Type 0 where
  pub count : length s.registers ≡ register_count
  pub six_bits : All (λ r. r < 64) s.registers

raise-suc : (i r x : ℕ) (xs : List ℕ) → raise (suc i) r (x ∷ xs) ≡ x ∷ raise i r xs
unfolding raise
raise-suc i r x xs = ground arith

length-raise : (i r : ℕ) (xs : List ℕ) → length (raise i r xs) ≡ length xs
unfolding raise
length-raise i r xs = ground (arith, length-set xs i r)

raise_bound :
    (i r : ℕ) (xs : List ℕ) → r < 64 → All (λ x. x < 64) xs → All (λ x. x < 64) (raise i r xs)
raise_bound i r [] h a = unfold raise in ground arith
raise_bound zero r (x ∷ xs) h a = unfold raise in ground arith
raise_bound (suc i) r (x ∷ xs) h (b, a) = rw raise-suc (b, raise_bound i r xs h a)

pub raise_idem : (i r : ℕ) (xs : List ℕ) → raise i r (raise i r xs) ≡ raise i r xs
raise_idem i r [] = unfold raise in ground arith
raise_idem zero r (x ∷ xs) = unfold raise in ground arith
raise_idem (suc i) r (x ∷ xs) = simp (raise-suc, raise_idem i r xs)

pub raise_comm : (i r j q : ℕ) (xs : List ℕ) → raise i r (raise j q xs) ≡ raise j q (raise i r xs)
raise_comm i r j q [] = unfold raise in ground arith
raise_comm zero r zero q (x ∷ xs) = unfold raise in ground arith
raise_comm zero r (suc j) q (x ∷ xs) = unfold raise in ground arith
raise_comm (suc i) r zero q (x ∷ xs) = unfold raise in ground arith
raise_comm (suc i) r (suc j) q (x ∷ xs) = simp (raise-suc, raise_comm i r j q xs)

-- raising a register of the second sketch raises it in the union
merge-raise :
    (i r : ℕ) (xs ys : List ℕ)
    → length xs ≡ length ys
    → merge_registers xs (raise i r ys) ≡ raise i r (merge_registers xs ys)
unfolding merge_registers
merge-raise i r [] [] h = unfold raise in ground arith
merge-raise i r [] (y ∷ ys) h = absurd (omega arith)
merge-raise i r (x ∷ xs) [] h = absurd (omega arith)
merge-raise zero r (x ∷ xs) (y ∷ ys) h = unfold raise in ground arith
merge-raise (suc i) r (x ∷ xs) (y ∷ ys) h = rw (
  raise-suc i r y ys,
  raise-suc i r _ (merge_registers xs ys),
  merge-raise i r xs ys (omega arith),
)

merge_registers_zero : (xs : List ℕ) → merge_registers xs (replicate (length xs) 0) ≡ xs
unfolding merge_registers
merge_registers_zero [] = refl
merge_registers_zero (x ∷ xs) = ground (arith, merge_registers_zero xs)

merge_registers_comm :
    (xs ys : List ℕ) → length xs ≡ length ys → merge_registers xs ys ≡ merge_registers ys xs
unfolding merge_registers
merge_registers_comm [] [] h = refl
merge_registers_comm [] (y ∷ ys) h = absurd (omega arith)
merge_registers_comm (x ∷ xs) [] h = absurd (omega arith)
merge_registers_comm (x ∷ xs) (y ∷ ys) h = ground (arith, merge_registers_comm xs ys)

merge_registers_assoc :
    (xs ys zs : List ℕ)
    → length xs ≡ length ys
    → merge_registers (merge_registers xs ys) zs ≡ merge_registers xs (merge_registers ys zs)
unfolding merge_registers
merge_registers_assoc [] ys zs h = refl
merge_registers_assoc (x ∷ xs) [] zs h = absurd (omega arith)
merge_registers_assoc (x ∷ xs) (y ∷ ys) [] h = refl
merge_registers_assoc (x ∷ xs) (y ∷ ys) (z ∷ zs) h =
    let ih = merge_registers_assoc xs ys zs (omega arith) in
    ap₂ (λ (a : ℕ) b. a ∷ b) (ground arith) ih

length-insert_hash : (s : Sketch) (h : ℕ) → length (insert_hash s h).registers ≡ length s.registers
unfolding insert_hash
length-insert_hash s h = length-raise _ _ s.registers

pub merge-insert_hash :
    (s t : Sketch) (h : ℕ)
    → length s.registers ≡ length t.registers
    → merge s (insert_hash t h) ≡ insert_hash (merge s t) h
unfolding merge insert_hash
merge-insert_hash s t h e =
    ap (λ rs. record { registers = rs }) (merge-raise _ _ s.registers t.registers e)

-- Merging is commutative and associative on sketches of the same number of registers, and the new
-- sketch is its unit.
pub merge_laws :
    (s t u : Sketch)
    → IsValid s
    → IsValid t
    → (merge s t ≡ merge t s) × (merge (merge s t) u ≡ merge s (merge t u)) × (merge s empty ≡ s)
unfolding merge empty
merge_laws s t u v w = (
  ap (λ rs. record { registers = rs }) (merge_registers_comm _ _ (v.count ∙ sym w.count)),
  ap (λ rs. record { registers = rs })
      (merge_registers_assoc _ t.registers u.registers (v.count ∙ sym w.count)),
  ap (λ rs. record { registers = rs })
      (subst (λ n. merge_registers s.registers (replicate n 0) ≡ s.registers) v.count
        (merge_registers_zero s.registers)),
)

replicate_bound : (n : ℕ) → All (λ r. r < 64) (replicate n 0)
replicate_bound zero = tt
replicate_bound (suc n) = (omega arith, replicate_bound n)

merge_registers_bound :
    (xs ys : List ℕ)
    → All (λ r. r < 64) xs
    → All (λ r. r < 64) ys
    → All (λ r. r < 64) (merge_registers xs ys)
unfolding merge_registers
merge_registers_bound [] ys a b = tt
merge_registers_bound (x ∷ xs) [] a b = a
merge_registers_bound (x ∷ xs) (y ∷ ys) (a, hx) (b, hy) =
    (ground arith, merge_registers_bound xs ys hx hy)

length-merge_registers : (xs ys : List ℕ) → length (merge_registers xs ys) ≡ length xs
unfolding merge_registers
length-merge_registers [] ys = refl
length-merge_registers (x ∷ xs) [] = refl
length-merge_registers (x ∷ xs) (y ∷ ys) = ap suc (length-merge_registers xs ys)

pub IsValid-empty : IsValid empty
unfolding empty
IsValid-empty = record {
  count = length-replicate {A = ℕ} register_count 0;
  six_bits = replicate_bound register_count;
}

pub insert_hash-IsValid : (s : Sketch) (h : ℕ) → IsValid s → IsValid (insert_hash s h)
unfolding insert_hash
insert_hash-IsValid s h v = record {
  count = length-raise (index_of h) (rank_of h) s.registers ∙ v.count;
  six_bits =
      raise_bound (index_of h) (rank_of h) s.registers (omega (arith, (rank_of_bounds h).1))
        v.six_bits;
}

pub merge-IsValid : (s t : Sketch) → IsValid s → IsValid t → IsValid (merge s t)
unfolding merge
merge-IsValid s t v w = record {
  count = length-merge_registers s.registers t.registers ∙ v.count;
  six_bits = merge_registers_bound _ _ v.six_bits w.six_bits;
}
