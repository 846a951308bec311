-- ===== src/SourceMap/Symbolicate/Snippets.antt =====
-- The excerpt of snippetAt is a stretch of the file around its line.
use native.Mathlib.Decide.{dec_lt}
use mathlib.Core.List.{reverse}
use bug_han.Prelude.{
  ℕ, zero, suc, ◌+◌, ◌-◌, ◌<◌, ◌≤◌, ◌≡◌, refl, ◌∙◌, sym, subst, ap, false, ◌||◌, some, List, [],
  ◌∷◌, ◌++◌, append_assoc, Bytes, arith, ltb, length, get_or, take, drop, split,
}
use bug_han.Prelude.Int.{pos}
use bug_han.SourceMap.Symbolicate.{Snippet, pre_loop, post_loop, snippet_at}

take-suc :
    (xs : List Bytes) (i : ℕ) → i < length xs → take (suc i) xs ≡ take i xs ++ get_or xs i [] ∷ []
take-suc [] i h = absurd (omega arith)
take-suc (x ∷ xs) zero h = refl
take-suc (x ∷ xs) (suc i) h = ap (λ t. x ∷ t) (take-suc xs i (omega arith))

drop-cons : (xs : List Bytes) (i : ℕ) → i < length xs → drop i xs ≡ get_or xs i [] ∷ drop (suc i) xs
drop-cons [] i h = absurd (omega arith)
drop-cons (x ∷ xs) zero h = refl
drop-cons (x ∷ xs) (suc i) h = drop-cons xs i (omega arith)

drop_all : (xs : List Bytes) (i : ℕ) → length xs ≤ i → drop i xs ≡ []
drop_all [] zero h = refl
drop_all [] (suc i) h = refl
drop_all (x ∷ xs) zero h = absurd (omega arith)
drop_all (x ∷ xs) (suc i) h = drop_all xs i (omega arith)

take-drop : (xs : List Bytes) (i : ℕ) → take i xs ++ drop i xs ≡ xs
take-drop xs zero = refl
take-drop [] (suc i) = refl
take-drop (x ∷ xs) (suc i) = ap (λ t. x ∷ t) (take-drop xs i)

pre_full : (xs : List Bytes) (i : ℕ) (a b : Bytes) → pre_loop xs i (a ∷ b ∷ []) ≡ a ∷ b ∷ []
unfolding pre_loop
pre_full xs zero a b = refl
pre_full xs (suc i) a b = refl

post_full :
    (fuel : ℕ) (xs : List Bytes) (i : ℕ) (a b : Bytes)
    → post_loop fuel xs i (a ∷ b ∷ []) ≡ a ∷ b ∷ []
unfolding post_loop
post_full zero xs i a b = refl
post_full (suc fuel) xs i a b = ground arith

-- the lines above, from the farthest, stand right before line i
above :
    (xs : List Bytes) (i : ℕ)
    → i ≤ length xs
    → take (i - 2) xs ++ reverse (pre_loop xs i []) ≡ take i xs
above xs zero h = unfold pre_loop in refl
above xs (suc zero) h = unfold pre_loop in sym (take-suc xs 0 h)
above xs (suc (suc i)) h =
    let start : suc (suc i) - 2 ≡ i = omega arith in
    let loop : pre_loop xs (suc (suc i)) [] ≡ get_or xs (suc i) [] ∷ get_or xs i [] ∷ [] =
      unfold pre_loop in pre_full xs i _ _ in
    rw (start, loop, take-suc xs (suc i) h, take-suc xs i (omega arith))
      (sym (append_assoc (take i xs) (get_or xs i [] ∷ []) (get_or xs (suc i) [] ∷ [])))

post_none :
    (fuel : ℕ) (xs : List Bytes) (i : ℕ) (post : List Bytes)
    → length xs ≤ i
    → post_loop fuel xs i post ≡ post
unfolding post_loop
post_none zero xs i post h = refl
post_none (suc fuel) xs i post h = ground arith

post_one :
    (fuel : ℕ) (xs : List Bytes) (i : ℕ) (post : List Bytes)
    → i < length xs
    → length post < 2
    → post_loop (suc fuel) xs i post ≡ post_loop fuel xs (i + 1) (post ++ get_or xs i [] ∷ [])
unfolding post_loop
post_one fuel xs i post h k = ground arith

below_one :
    (fuel : ℕ) (xs : List Bytes) (i : ℕ)
    → length xs ≤ suc i + fuel
    → post_loop fuel xs (i + 1) (get_or xs i [] ∷ []) ++ drop (i + 2) xs
      ≡ get_or xs i [] ∷ drop (suc i) xs
below_one zero xs i h =
    unfold post_loop in
    ap (λ t. get_or xs i [] ∷ t)
      (drop_all xs (i + 2) (omega arith) ∙ sym (drop_all xs (suc i) (omega arith)))
below_one (suc fuel) xs i h = elim (dec_lt (i + 1) (length xs)) [
  | no out ↦ rw (post_none (suc fuel) xs (i + 1) (get_or xs i [] ∷ []) (omega arith)) (
      ap (λ t. get_or xs i [] ∷ t)
        (drop_all xs (i + 2) (omega arith) ∙ sym (drop_all xs (suc i) (omega arith))))
  | yes two ↦
      let next : i + 1 ≡ suc i = omega arith in
      let past : i + 2 ≡ suc (suc i) = omega arith in
      rw
        (
          post_one fuel xs (i + 1) (get_or xs i [] ∷ []) two (omega arith),
          post_full fuel xs (i + 1 + 1) (get_or xs i []) (get_or xs (i + 1) []),
          next,
          past,
        )
        (ap (λ t. get_or xs i [] ∷ t) (sym (drop-cons xs (suc i) (omega arith))))
]

-- the lines below stand right behind line i
below :
    (fuel : ℕ) (xs : List Bytes) (i : ℕ)
    → length xs ≤ i + fuel
    → post_loop fuel xs i [] ++ drop (i + 2) xs ≡ drop i xs
below zero xs i h =
    unfold post_loop in rw (drop_all xs i (omega arith)) (drop_all xs (i + 2) (omega arith))
below (suc fuel) xs i h = elim (dec_lt i (length xs)) [
  | no out ↦
      rw (post_none (suc fuel) xs i [] (omega arith), drop_all xs i (omega arith))
        (drop_all xs (i + 2) (omega arith))
  | yes one ↦
      rw (post_one fuel xs i [] one (omega arith), drop-cons xs i one)
        (below_one fuel xs i (omega arith))
]

-- The excerpt is centred on a line: the lines of the file up to two before the line, those above
-- from the farthest, the line, those below, and the lines from two behind it are the whole file.
pub record IsStretch (s : Snippet) (lines : List Bytes) (line : ℕ) : Type 0 where
  pub number : s.line ≡ pos line
  pub whole :
      (take (line - 1 - 2) lines ++ reverse s.pre)
        ++ (s.line_text ∷ (s.post ++ drop (line + 2) lines))
      ≡ lines

excerpt : Bytes → List Bytes → ℕ → Snippet
excerpt path lines line = record {
  path = path;
  line = pos line;
  line_text = get_or lines (line - 1) [];
  pre = pre_loop lines (line - 1) [];
  post = post_loop (length lines) lines line [];
}

snippet_at-excerpt :
    (path content : Bytes) (line : ℕ)
    → 1 ≤ line
    → line ≤ length (split content b'\n')
    → snippet_at path content (pos line) ≡ some (excerpt path (split content b'\n') line)
unfolding snippet_at excerpt
snippet_at-excerpt path content line lo hi =
    let within : (ltb line 1 || ltb (length (split content b'\n')) line) ≡ false = ground arith in
    rw within

excerpt-IsStretch :
    (path : Bytes) (lines : List Bytes) (line : ℕ)
    → 1 ≤ line
    → line ≤ length lines
    → IsStretch (excerpt path lines line) lines line
unfolding excerpt
excerpt-IsStretch path lines line lo hi =
    let next : suc (line - 1) ≡ line = omega arith in
    let centre : drop (line - 1) lines ≡ get_or lines (line - 1) [] ∷ drop line lines =
      subst (λ n. drop (line - 1) lines ≡ get_or lines (line - 1) [] ∷ drop n lines) next
        (drop-cons lines (line - 1) (omega arith)) in
    record {
      number = refl;
      whole =
          rw
            (
              above lines (line - 1) (omega arith),
              below (length lines) lines line (omega arith),
              ← centre,
            )
            (take-drop lines (line - 1));
    }

-- For a line of the file snippetAt returns an excerpt, and the excerpt is a stretch of the file: up to
-- two lines above, nearest first, the line itself, and up to two lines below, none left out.
pub snippet_at-IsStretch :
    (path content : Bytes) (line : ℕ)
    → 1 ≤ line
    → line ≤ length (split content b'\n')
    → (s : Snippet) × (snippet_at path content (pos line) ≡ some s)
      × IsStretch s (split content b'\n') line
snippet_at-IsStretch path content line lo hi = (
  excerpt path (split content b'\n') line,
  snippet_at-excerpt path content line lo hi,
  excerpt-IsStretch path (split content b'\n') line lo hi,
)
