-- ===== src/Prelude/Text.antt =====
-- Go strings and byte slices as lists of bytes, with the functions of the standard library's
-- `strings` and `bytes` that the program uses. Text is ASCII: white space and letter case are those
-- of ASCII, and a literal is the list of its code points.
use Prim.Native.Char.{code}
use Prim.Native.String.{String}
use Prim.Native.Nat.{ℕ, ◌+◌}
use mathlib.Core.Path.{◌≡◌, refl, ap, ap₂, ◌∙◌}
use mathlib.Core.Logic.{inl, inr}
use mathlib.Core.Bool.{Bool, true, false, ◌&&◌, ◌||◌}
use mathlib.Core.List.{List, [], ◌∷◌, ◌++◌}
use mathlib.Core.Option.{Option, none, some}
use native.Mathlib.Omega.{arith}
use bug_han.Prelude.Tests.{
  leb, ◌==◌, ==_iff, ==_refl, Bool-cases, if◌then◌else◌, and_left, and_right,
}
use bug_han.Prelude.Lists.{length, drop, any, All}

abbrev pub Bytes : Type 0
Bytes = List ℕ

abbrev pub codes : String → Bytes
codes String.[] = []
codes (String.◌∷◌ c s) = code c ∷ codes s

-- a == b on strings
abbrev pub eqb : Bytes → Bytes → Bool
eqb [] [] = true
eqb [] (b ∷ t) = false
eqb (a ∷ s) [] = false
eqb (a ∷ s) (b ∷ t) = a == b && eqb s t

pub eqb_sound : (s t : Bytes) → eqb s t ≡ true → s ≡ t
eqb_sound [] [] h = refl
eqb_sound [] (b ∷ t) h = ground arith
eqb_sound (a ∷ s) [] h = ground arith
eqb_sound (a ∷ s) (b ∷ t) h =
    ap₂ (λ x r. x ∷ r) ((==_iff a b).0 (and_left _ _ h)) (eqb_sound s t (and_right (a == b) _ h))

pub eqb_refl : (s : Bytes) → eqb s s ≡ true
eqb_refl [] = refl
eqb_refl (a ∷ s) = ground (arith, eqb_refl s)

abbrev pub is_empty : Bytes → Bool
is_empty [] = true
is_empty (b ∷ s) = false

-- strings.IndexByte and strings.LastIndex of one byte, as the parts before and behind it: `none` is -1
abbrev pub cut_byte : ℕ → Bytes → Option (Bytes × Bytes)
cut_byte sep [] = none
cut_byte sep (b ∷ s) =
    if b == sep
    then some ([], s)
    else elim (cut_byte sep s) [ none ↦ none | some (l, r) ↦ some (b ∷ l, r) ]

-- strings.HasPrefix
abbrev pub has_prefix : Bytes → Bytes → Bool
has_prefix s [] = true
has_prefix [] (p ∷ ps) = false
has_prefix (b ∷ s) (p ∷ ps) = b == p && has_prefix s ps

-- strings.TrimPrefix
abbrev pub trim_prefix : Bytes → Bytes → Bytes
trim_prefix s p = if has_prefix s p then drop (length p) s else s

-- strings.Contains
abbrev pub contains : Bytes → Bytes → Bool
contains [] p = has_prefix [] p
contains (b ∷ s) p = has_prefix (b ∷ s) p || contains s p

-- strings.Split at one byte: always at least one part
abbrev pub push_head : ℕ → List Bytes → List Bytes
push_head b [] = (b ∷ []) ∷ []
push_head b (p ∷ ps) = (b ∷ p) ∷ ps

abbrev pub split : Bytes → ℕ → List Bytes
split [] sep = [] ∷ []
split (b ∷ s) sep = let rest = split s sep in if b == sep then [] ∷ rest else push_head b rest

-- strings.Join with one byte
abbrev pub join : List Bytes → ℕ → Bytes
join [] sep = []
join (p ∷ []) sep = p
join (p ∷ q ∷ ps) sep = p ++ sep ∷ join (q ∷ ps) sep

abbrev pub is_space : ℕ → Bool
is_space b = b == 32 || (leb 9 b && leb b 13)

abbrev pub trim_left : (ℕ → Bool) → Bytes → Bytes
trim_left p [] = []
trim_left p (b ∷ s) = if p b then trim_left p s else b ∷ s

abbrev pub trim_right : (ℕ → Bool) → Bytes → Bytes
trim_right p [] = []
trim_right p (b ∷ s) = elim (trim_right p s) [ [] ↦ if p b then [] else b ∷ [] | c ∷ t ↦ b ∷ c ∷ t ]

-- strings.TrimSpace
abbrev pub trim_space : Bytes → Bytes
trim_space s = trim_right is_space (trim_left is_space s)

abbrev pub to_lower_byte : ℕ → ℕ
to_lower_byte b = if leb b'A' b && leb b b'Z' then b + 32 else b

-- strings.ToLower
abbrev pub to_lower : Bytes → Bytes
to_lower [] = []
to_lower (b ∷ s) = to_lower_byte b ∷ to_lower s

-- s[:i] for the first byte that passes the test, all where none does
abbrev pub take_until : (ℕ → Bool) → Bytes → Bytes
take_until p [] = []
take_until p (b ∷ s) = if p b then [] else b ∷ take_until p s

-- s[i:] for the first byte that is `sep`; `none` where there is none
abbrev pub from_byte : ℕ → Bytes → Option Bytes
from_byte sep [] = none
from_byte sep (b ∷ s) = if b == sep then some (b ∷ s) else from_byte sep s

-- strings.Cut: the text before the first occurrence of a pattern and the text behind it
abbrev pub cut_text : Bytes → Bytes → Option (Bytes × Bytes)
cut_text pat [] = if is_empty pat then some ([], []) else none
cut_text pat (b ∷ s) =
    if has_prefix (b ∷ s) pat
    then some ([], drop (length pat) (b ∷ s))
    else elim (cut_text pat s) [ none ↦ none | some (l, r) ↦ some (b ∷ l, r) ]

-- strings.LastIndex of one byte, as the text before it and the text behind it
abbrev pub cut_last : ℕ → Bytes → Option (Bytes × Bytes)
cut_last sep [] = none
cut_last sep (b ∷ s) = elim (cut_last sep s) [
  | some (l, r) ↦ some (b ∷ l, r)
  | none ↦ if b == sep then some ([], s) else none
]

-- the bytes of a text that holds no `sep`
abbrev pub Lacks : ℕ → Bytes → Type 0
Lacks sep = All (λ b. (b == sep) ≡ false)

pub Lacks_by : (sep : ℕ) (s : Bytes) → any (λ b. b == sep) s ≡ false → Lacks sep s
Lacks_by sep [] h = tt
Lacks_by sep (b ∷ s) h = elim (Bool-cases (b == sep)) [
  | inl e ↦ absurd (ground arith)
  | inr e ↦ (e, Lacks_by sep s (rw e at h))
]

pub split-Lacks_part : (p : Bytes) (sep : ℕ) → Lacks sep p → split p sep ≡ p ∷ []
split-Lacks_part [] sep h = refl
split-Lacks_part (b ∷ p) sep (e, h) = rw (e, split-Lacks_part p sep h)

pub split-cons : (p s : Bytes) (sep : ℕ) → Lacks sep p → split (p ++ sep ∷ s) sep ≡ p ∷ split s sep
split-cons [] s sep h = rw (==_refl sep)
split-cons (b ∷ p) s sep (e, h) = rw (e, split-cons p s sep h)

-- Splitting a join of parts that lack the separator gives the parts back.
pub split-join :
    (p : Bytes) (ps : List Bytes) (sep : ℕ)
    → All (Lacks sep) (p ∷ ps)
    → split (join (p ∷ ps) sep) sep ≡ p ∷ ps
split-join p [] sep (h, _) = split-Lacks_part p sep h
split-join p (q ∷ ps) sep (h, k) =
    split-cons p (join (q ∷ ps) sep) sep h ∙ ap (λ t. p ∷ t) (split-join q ps sep k)

push_head-Lacks :
    (b sep : ℕ) (ps : List Bytes)
    → (b == sep) ≡ false
    → All (Lacks sep) ps
    → All (Lacks sep) (push_head b ps)
push_head-Lacks b sep [] e h = ((e, tt), tt)
push_head-Lacks b sep (p ∷ ps) e (hp, h) = ((e, hp), h)

-- no part of a split holds the separator
pub split-Lacks : (s : Bytes) (sep : ℕ) → All (Lacks sep) (split s sep)
split-Lacks [] sep = (tt, tt)
split-Lacks (b ∷ s) sep = elim (Bool-cases (b == sep)) [
  | inl e ↦ rw e (tt, split-Lacks s sep)
  | inr e ↦ rw e (push_head-Lacks b sep (split s sep) e (split-Lacks s sep))
]
