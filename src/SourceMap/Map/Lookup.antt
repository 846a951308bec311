-- ===== src/SourceMap/Map/Lookup.antt =====
-- Lookup finds the segment with the greatest column that is not past the position.
use bug_han.Prelude.{
  ℕ, zero, suc, ◌-◌, ◌<◌, ◌≤◌, ◌≡◌, refl, ◌∙◌, sym, subst, ◌⊎◌, Bool, Option-cases, true, false,
  Option, none, some, List, [], ◌∷◌, arith, leb, ◌==◌, if◌then◌else◌, length, get_or, get_elem?,
  All, Bool-cases, inl, inr,
}
use bug_han.Prelude.Int.{ℤ, pos, ltb_ℤ, ◌≤ℤ◌, ◌<ℤ◌}
use bug_han.SourceMap.Map.{Segment, Map, lookup_line, lookup, no_segment}
use bug_han.SourceMap.Map.Search.{search, Splits, search-Splits}

-- the columns ascend, as they do in a line that a bundler writes
abbrev pub IsAscending : List Segment → Type 0
IsAscending [] = Unit {0}
IsAscending (s ∷ segs) = All (λ t. s.gen_col ≤ℤ t.gen_col) segs × IsAscending segs

-- The reference: the last segment, from the left, whose column is not past `col`.
unfoldable pub last_upto : List Segment → ℤ → Option Segment
last_upto [] col = none
last_upto (s ∷ segs) col = elim (last_upto segs col) [
  | some t ↦ some t
  | none ↦ if ltb_ℤ col s.gen_col then none else some s
]

abbrev past : List Segment → ℤ → ℕ → Bool
past segs col k = ltb_ℤ col (get_or segs k no_segment).gen_col

All-get :
    (c : ℤ) (segs : List Segment) (k : ℕ)
    → All (λ t. c ≤ℤ t.gen_col) segs
    → k < length segs
    → c ≤ℤ (get_or segs k no_segment).gen_col
All-get c [] k h lt = absurd (omega arith)
All-get c (s ∷ segs) zero (p, h) lt = p
All-get c (s ∷ segs) (suc k) (p, h) lt = All-get c segs k h (omega arith)

past_mono :
    (segs : List Segment) (col : ℤ)
    → IsAscending segs
    → (k l : ℕ) → k ≤ l
    → l < length segs
    → past segs col k ≡ true
    → past segs col l ≡ true
past_mono [] col a k l le lt p = absurd (omega arith)
past_mono (s ∷ segs) col (h, a) zero zero le lt p = p
past_mono (s ∷ segs) col (h, a) zero (suc l) le lt p =
    ground (arith, All-get s.gen_col segs l h (omega arith))
past_mono (s ∷ segs) col (h, a) (suc k) zero le lt p = absurd (omega arith)
past_mono (s ∷ segs) col (h, a) (suc k) (suc l) le lt p =
    past_mono segs col a k l (omega arith) (omega arith) p

none-past :
    (segs : List Segment) (col : ℤ)
    → ((k : ℕ) → k < length segs → past segs col k ≡ true)
    → last_upto segs col ≡ none
unfolding last_upto
none-past [] col h = refl
none-past (s ∷ segs) col h =
    rw (none-past segs col (λ k lt. h (suc k) (omega arith)), h 0 (omega arith))

Splits-tail :
    (s : Segment) (segs : List Segment) (col : ℤ) (r : ℕ)
    → Splits (length (s ∷ segs)) (past (s ∷ segs) col) (suc r)
    → Splits (length segs) (past segs col) r
Splits-tail s segs col r h = record {
  in_range = omega (arith, h.in_range);
  below = λ k lt. h.below (suc k) (omega arith);
  above = λ k le lt. h.above (suc k) (omega arith) (omega arith);
}

-- a split of the line that is not at its start gives the reference's answer
last_upto-split :
    (segs : List Segment) (col : ℤ) (r : ℕ)
    → Splits (length segs) (past segs col) (suc r)
    → last_upto segs col ≡ some (get_or segs r no_segment)
unfolding last_upto
last_upto-split [] col r h = absurd (omega (arith, h.in_range))
last_upto-split (s ∷ segs) col zero h = rw (
  none-past segs col (λ k lt. h.above (suc k) (omega arith) (omega arith)),
  h.below 0 (omega arith),
)
last_upto-split (s ∷ segs) col (suc r) h =
    rw (last_upto-split segs col r (Splits-tail s segs col (suc r) h))

get_elem?-get_or :
    (segs : List Segment) (k : ℕ)
    → k < length segs
    → get_elem? segs k ≡ some (get_or segs k no_segment)
get_elem?-get_or [] k h = absurd (omega arith)
get_elem?-get_or (s ∷ segs) zero h = refl
get_elem?-get_or (s ∷ segs) (suc k) h = get_elem?-get_or segs k (omega arith)

answer : List Segment → ℕ → Option Segment
answer segs r = if r == 0 then none else get_elem? segs (r - 1)

answer-split :
    (segs : List Segment) (col : ℤ) (r : ℕ)
    → Splits (length segs) (past segs col) r
    → answer segs r ≡ last_upto segs col
unfolding answer
answer-split segs col zero h = rw (none-past segs col (λ k lt. h.above k (omega arith) lt))
answer-split segs col (suc r) h =
    let first : suc r - 1 ≡ r = omega arith in
    let test : (suc r == 0) ≡ false = ground arith in
    rw (test, first, last_upto-split segs col r h)
      (get_elem?-get_or segs r (omega (arith, h.in_range)))

lookup_line_lem :
    (segs : List Segment) (col : ℤ) → IsAscending segs → lookup_line segs col ≡ last_upto segs col
unfolding lookup_line answer
lookup_line_lem [] col a = unfold last_upto in refl
lookup_line_lem (s ∷ segs) col a =
    let nonempty : (length (s ∷ segs) == 0) ≡ false = ground arith in
    rw nonempty (
      answer-split (s ∷ segs) col (search (length (s ∷ segs)) (past (s ∷ segs) col))
        (search-Splits (length (s ∷ segs)) (past (s ∷ segs) col) (past_mono (s ∷ segs) col a)))

get_or_past : (lines : List (List Segment)) (k : ℕ) → length lines ≤ k → get_or lines k [] ≡ []
get_or_past [] k h = refl
get_or_past (l ∷ lines) zero h = absurd (omega arith)
get_or_past (l ∷ lines) (suc k) h = get_or_past lines k (omega arith)

-- Lookup's binary search on a line whose columns ascend answers as the scan from the left that keeps
-- the last segment whose column is not past the position; a line out of range, which the second
-- argument of `get_or` makes an empty one, has no answer.
pub lookup-last_upto :
    (m : Map) (line : ℕ) (col : ℤ)
    → IsAscending (get_or m.lines line [])
    → lookup m (pos line) col ≡ last_upto (get_or m.lines line []) col
unfolding lookup
lookup-last_upto m line col a = elim (Bool-cases (leb (length m.lines) line)) [
  | inl out ↦ rw (out, get_or_past m.lines line (ground arith)) (unfold last_upto in refl)
  | inr within ↦ rw within (lookup_line_lem (get_or m.lines line []) col a)
]

-- the answer of the scan is a segment that is not past the position, and no other such segment
-- stands further right
pub record IsNearest (segs : List Segment) (col : ℤ) (t : Segment) : Type 0 where
  pub upto : t.gen_col ≤ℤ col
  pub nearest : All (λ u. (u.gen_col ≤ℤ t.gen_col) ⊎ (col <ℤ u.gen_col)) segs

last_upto-none :
    (segs : List Segment) (col : ℤ) → last_upto segs col ≡ none → All (λ u. col <ℤ u.gen_col) segs
unfolding last_upto
last_upto-none [] col h = tt
last_upto-none (s ∷ segs) col h = elim (Option-cases (last_upto segs col)) [
  | inl e ↦ (ground arith, last_upto-none segs col e)
  | inr (t, e) ↦ absurd (ground arith)
]

last_upto_cons :
    (s : Segment) (segs : List Segment) (col : ℤ) (t : Segment)
    → last_upto (s ∷ segs) col ≡ some t
    → (last_upto segs col ≡ some t) ⊎ ((last_upto segs col ≡ none) × (s ≡ t) × (s.gen_col ≤ℤ col))
unfolding last_upto
last_upto_cons s segs col t h = elim (Option-cases (last_upto segs col)) [
  | inr (u, e) ↦ inl (e ∙ (rw (e, last_upto) at h))
  | inl e ↦ elim (Bool-cases (ltb_ℤ col s.gen_col)) [
    | inl beyond ↦ absurd (cc (rw (e, beyond) at h))
    | inr upto ↦ inr (e, cc (rw (e, upto) at h), ground arith)
  ]
]

last_upto_All :
    (P : Segment → Type 0) (segs : List Segment) (col : ℤ) (t : Segment)
    → All P segs
    → last_upto segs col ≡ some t
    → P t
last_upto_All P [] col t a h = absurd (unfold last_upto in ground arith)
last_upto_All P (s ∷ segs) col t (p, a) h = elim (last_upto_cons s segs col t h) [
  | inl e ↦ last_upto_All P segs col t a e
  | inr (e, same, upto) ↦ subst P same p
]

after_to_nearest :
    (segs : List Segment) (col c : ℤ)
    → All (λ u. col <ℤ u.gen_col) segs
    → All (λ u. (u.gen_col ≤ℤ c) ⊎ (col <ℤ u.gen_col)) segs
after_to_nearest [] col c h = tt
after_to_nearest (s ∷ segs) col c (p, h) = (inr p, after_to_nearest segs col c h)

last_upto-IsNearest :
    (segs : List Segment) (col : ℤ) (t : Segment)
    → IsAscending segs
    → last_upto segs col ≡ some t
    → IsNearest segs col t
last_upto-IsNearest [] col t a h = absurd (unfold last_upto in ground arith)
last_upto-IsNearest (s ∷ segs) col t (p, a) h = elim (last_upto_cons s segs col t h) [
  | inl e ↦
      let rest : IsNearest segs col t = last_upto-IsNearest segs col t a e in
      record {
        upto = rest.upto;
        nearest = (inl (last_upto_All (λ u. s.gen_col ≤ℤ u.gen_col) segs col t p e), rest.nearest);
      }
  | inr (e, same, upto) ↦ subst (IsNearest (s ∷ segs) col) same (record {
    upto = upto;
    nearest = (inl (omega arith), after_to_nearest segs col s.gen_col (last_upto-none segs col e));
  })
]

-- What Lookup finds on a line whose columns ascend is not past the position, and any segment of the
-- line that stands further right is past it.
pub lookup-IsNearest :
    (m : Map) (line : ℕ) (col : ℤ) (t : Segment)
    → IsAscending (get_or m.lines line [])
    → lookup m (pos line) col ≡ some t
    → IsNearest (get_or m.lines line []) col t
lookup-IsNearest m line col t a h =
    last_upto-IsNearest (get_or m.lines line []) col t a (sym (lookup-last_upto m line col a) ∙ h)
