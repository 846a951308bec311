-- ===== src/Ingest/Auth/Maps.antt =====
-- The maps of the cache and their keys.
use bug_han.Prelude.{
  ◌+◌, ◌≤◌, ◌≡◌, refl, sym, subst, some, List, [], ◌∷◌, Bytes, arith, ltb, eqb, eqb_sound, ap, ap₂,
  drop, ℕ, ==_refl, ◌++◌, Lacks, length, All, Bool-cases, inl, inr,
}
use bug_han.Ingest.Auth.{get, put, put_bounded, cache_key}

length-put {ℓ} :
    {A : Type ℓ} (k : Bytes) (a : A) (m : List (Bytes × A)) → length (put k a m) ≤ length m + 1
unfolding put
length-put k a [] = omega arith
length-put k a ((j, b) ∷ m) = ground (arith, length-put k a m)

pub length-put_bounded {ℓ} :
    {A : Type ℓ} (k : Bytes) (a : A) (m : List (Bytes × A)) → length (put_bounded k a m) ≤ 10_001
unfolding put_bounded
length-put_bounded k a m = elim (Bool-cases (ltb 10_000 (length m))) [
  | inl full ↦ rw full (omega (arith, length-put k a []))
  | inr room ↦ rw room (ground (arith, length-put k a m))
]

pub put-All {ℓ} :
    {A : Type ℓ} (P : Bytes × A → Type 0) (k : Bytes) (a : A) (m : List (Bytes × A))
    → P (k, a)
    → All P m
    → All P (put k a m)
unfolding put
put-All P k a [] p h = (p, tt)
put-All P k a ((j, b) ∷ m) p (q, h) = elim (Bool-cases (eqb j k)) [
  | inl e ↦ rw e (subst (λ i. P (i, a)) (sym (eqb_sound j k e)) p, h)
  | inr e ↦ rw e (q, put-All P k a m p h)
]

pub put_bounded-All {ℓ} :
    {A : Type ℓ} (P : Bytes × A → Type 0) (k : Bytes) (a : A) (m : List (Bytes × A))
    → P (k, a)
    → All P m
    → All P (put_bounded k a m)
unfolding put_bounded
put_bounded-All P k a m p h = elim (Bool-cases (ltb 10_000 (length m))) [
  | inl full ↦ rw full (put-All P k a [] p tt)
  | inr room ↦ rw room (put-All P k a m p h)
]

pub get-All {ℓ} :
    {A : Type ℓ} (P : Bytes × A → Type 0) (k : Bytes) (a : A) (m : List (Bytes × A))
    → All P m
    → get k m ≡ some a
    → P (k, a)
unfolding get
get-All P k a [] h e = absurd (ground arith)
get-All P k a ((j, b) ∷ m) (p, h) e = elim (Bool-cases (eqb j k)) [
  | inl s ↦
      let same : b ≡ a = cc (rw s at e) in
      subst (λ x. P (k, x)) same (subst (λ i. P (i, b)) (eqb_sound j k s) p)
  | inr s ↦ get-All P k a m h (rw s at e)
]

abbrev first : Bytes → ℕ
first [] = 0
first (b ∷ s) = b

bar-there : (p k : Bytes) → Lacks b'|' (p ++ b'|' ∷ k) → ⊥
bar-there [] k (h, _) = absurd (ground (arith, ==_refl b'|'))
bar-there (b ∷ p) k (_, h) = bar-there p k h

-- a cache key tells its parts apart from others where they hold no bar
pub cache_key-apart :
    (p k p' k' : Bytes)
    → Lacks b'|' p
    → Lacks b'|' k
    → cache_key p k ≡ cache_key p' k'
    → (p ≡ p') × (k ≡ k')
unfolding cache_key
cache_key-apart [] k [] k' hp hk e = (refl, ap (drop 1) e)
cache_key-apart [] k (b ∷ p') k' hp hk e =
    absurd (bar-there p' k' (subst (Lacks b'|') (ap (drop 1) e) hk))
cache_key-apart (b ∷ p) k [] k' (hb, hp) hk e = absurd (cc (hb, e, ==_refl b'|'))
cache_key-apart (b ∷ p) k (c ∷ p') k' (hb, hp) hk e =
    let (same_p, same_k) = cache_key-apart p k p' k' hp hk (ap (drop 1) e) in
    (ap₂ (λ x xs. x ∷ xs) (ap first e) same_p, same_k)
