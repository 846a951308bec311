-- ===== src/SourceMap/Map/Lines.antt =====
-- What decodeMappings guarantees of the decoded lines: the fuel suffices, and each segment carries
-- the number of its line.
use bug_han.Prelude.{
  ℕ, zero, suc, ◌+◌, ◌≤◌, ◌≡◌, ◌≢◌, refl, subst, ◌||◌, List, [], ◌∷◌, ◌++◌, Bytes, arith, ltb, leb,
  ◌==◌, if◌then◌else◌, length, All, All-append, Bool-cases, inl, inr, is_empty, length-append,
}
use bug_han.Prelude.Int.{ℤ}
use bug_han.SourceMap.Vlq
use bug_han.SourceMap.Vlq.{decode_vlq_segment}
use bug_han.SourceMap.Map.{
  Segment, Cursor, Result, ok, err, out_of_fuel, bad_vlq, cut_at, place, add_fields, add_segment,
  segs_loop, lines_loop, decode_mappings, ◌>>=◌,
}

cut_at-cons :
    (sep b : ℕ) (s : Bytes)
    → cut_at sep (b ∷ s) ≡ (if b == sep then ([], s) else (b ∷ (cut_at sep s).0, (cut_at sep s).1))
unfolding cut_at
cut_at-cons sep b s = ground arith

cut_at-length : (sep : ℕ) (s : Bytes) → length (cut_at sep s).1 ≤ length s
cut_at-length sep [] = unfold cut_at in omega arith
cut_at-length sep (b ∷ s) = ground (arith, cut_at-cons sep b s, cut_at-length sep s)

-- what is behind the first separator is shorter
cut_at-shorter : (sep b : ℕ) (s : Bytes) → length (cut_at sep (b ∷ s)).1 ≤ length s
cut_at-shorter sep b s = ground (arith, cut_at-cons sep b s, cut_at-length sep s)

-- a cursor whose segments all lie on the line, or a refusal that is not for want of fuel
abbrev OnLine : ℕ → Result Cursor → Type 0
OnLine line (ok c) = All (λ s. s.gen_line ≡ line) c.segs
OnLine line (err e) = e ≢ out_of_fuel

place-OnLine :
    (line : ℕ) (fields : List ℤ) (c : Cursor)
    → All (λ s. s.gen_line ≡ line) c.segs
    → All (λ s. s.gen_line ≡ line) (place line fields c).segs
unfolding place
place-OnLine line fields c h = elim (Bool-cases (leb 4 (length fields))) [
  | inr short ↦ rw short (All-append _ c.segs _ h (refl, tt))
  | inl long ↦ rw long (elim (Bool-cases (length fields == 5)) [
    | inl five ↦ rw five (All-append _ c.segs _ h (refl, tt))
    | inr four ↦ rw four (All-append _ c.segs _ h (refl, tt))
  ])
]

add_fields-OnLine :
    (line : ℕ) (fields : List ℤ) (c : Cursor)
    → All (λ s. s.gen_line ≡ line) c.segs
    → OnLine line (add_fields line fields c)
unfolding add_fields
add_fields-OnLine line fields c h =
    elim (Bool-cases (ltb (length fields) 1 || (length fields == 2 || ltb 5 (length fields)))) [
      | inl bad ↦ rw bad (λ e. cc)
      | inr good ↦ rw good (place-OnLine line fields c h)
    ]

add_segment-OnLine :
    (line : ℕ) (text : Bytes) (c : Cursor)
    → All (λ s. s.gen_line ≡ line) c.segs
    → OnLine line (add_segment line text c)
unfolding add_segment
add_segment-OnLine line text c h =
    elim (decode_vlq_segment text)
      as (λ r.
        OnLine line (elim r [
          | Vlq.ok fields ↦ add_fields line fields c
          | Vlq.err e ↦ err (bad_vlq line e)
        ])) [ Vlq.ok fields ↦ add_fields-OnLine line fields c h | Vlq.err e ↦ λ p. cc ]

OnLine-bind :
    (line : ℕ) (r : Result Cursor) (f : Cursor → Result Cursor)
    → OnLine line r
    → ((c : Cursor) → All (λ s. s.gen_line ≡ line) c.segs → OnLine line (f c))
    → OnLine line (r >>= f)
OnLine-bind line (ok c) f h k = k c h
OnLine-bind line (err e) f h k = h

segs_loop-OnLine :
    (fuel line : ℕ) (s : Bytes) (c : Cursor)
    → length s ≤ fuel
    → All (λ s. s.gen_line ≡ line) c.segs
    → OnLine line (segs_loop fuel line s c)
unfolding segs_loop
segs_loop-OnLine zero line [] c le h = h
segs_loop-OnLine (suc fuel) line [] c le h = h
segs_loop-OnLine zero line (b ∷ s) c le h = absurd (omega arith)
segs_loop-OnLine (suc fuel) line (b ∷ s) c le h =
    let shorter : length (cut_at b',' (b ∷ s)).1 ≤ fuel = omega (arith, cut_at-shorter b',' b s) in
    elim (Bool-cases (is_empty (cut_at b',' (b ∷ s)).0)) [
      | inl skip ↦ rw skip (segs_loop-OnLine fuel line (cut_at b',' (b ∷ s)).1 c shorter h)
      | inr text ↦ rw text (
          OnLine-bind line _ _ (add_segment-OnLine line (cut_at b',' (b ∷ s)).0 c h)
            (λ c' h'. segs_loop-OnLine fuel line (cut_at b',' (b ∷ s)).1 c' shorter h'))
    ]

-- the lines are numbered upwards from `n`
abbrev pub NumberedFrom : ℕ → List (List Segment) → Type 0
NumberedFrom n [] = Unit {0}
NumberedFrom n (segs ∷ lines) = All (λ s. s.gen_line ≡ n) segs × NumberedFrom (suc n) lines

-- decoded lines that are numbered from 0, or a refusal that is not for want of fuel
abbrev pub AreNumbered : Result (List (List Segment)) → Type 0
AreNumbered (ok lines) = NumberedFrom 0 lines
AreNumbered (err e) = e ≢ out_of_fuel

NumberedFrom-append :
    (n m : ℕ) (lines : List (List Segment)) (segs : List Segment)
    → NumberedFrom n lines
    → n + length lines ≡ m
    → All (λ s. s.gen_line ≡ m) segs
    → NumberedFrom n (lines ++ segs ∷ [])
NumberedFrom-append n m [] segs h e k =
    let start : m ≡ n = omega arith in (subst (λ l. All (λ s. s.gen_line ≡ l) segs) start k, tt)
NumberedFrom-append n m (l ∷ lines) segs (h, hs) e k =
    (h, NumberedFrom-append (suc n) m lines segs hs (omega arith) k)

AreNumbered-bind :
    (line : ℕ) (r : Result Cursor) (f : Cursor → Result (List (List Segment)))
    → OnLine line r
    → ((c : Cursor) → All (λ s. s.gen_line ≡ line) c.segs → AreNumbered (f c))
    → AreNumbered (r >>= f)
AreNumbered-bind line (ok c) f h k = k c h
AreNumbered-bind line (err e) f h k = h

lines_loop-AreNumbered :
    (fuel line : ℕ) (s : Bytes) (c : Cursor) (lines : List (List Segment))
    → length s ≤ fuel
    → length lines ≡ line
    → NumberedFrom 0 lines
    → AreNumbered (lines_loop fuel line s c lines)
unfolding lines_loop
lines_loop-AreNumbered zero line [] c lines le e h = h
lines_loop-AreNumbered (suc fuel) line [] c lines le e h = h
lines_loop-AreNumbered zero line (b ∷ s) c lines le e h = absurd (omega arith)
lines_loop-AreNumbered (suc fuel) line (b ∷ s) c lines le e h =
    AreNumbered-bind line _ _
      (segs_loop-OnLine (length (cut_at b';' (b ∷ s)).0) line (cut_at b';' (b ∷ s)).0 _
        (omega arith) tt)
      (λ c' h'.
        lines_loop-AreNumbered fuel (line + 1) (cut_at b';' (b ∷ s)).1 c' (lines ++ c'.segs ∷ [])
          (omega (arith, cut_at-shorter b';' b s))
          (omega (arith, length-append lines (c'.segs ∷ [])))
          (NumberedFrom-append 0 line lines c'.segs h (omega arith) h'))

-- Decoding any mappings text ends before the fuel does; where it succeeds, every segment of line i of
-- the result carries i as its generated line.
pub decode_mappings-AreNumbered : (s : Bytes) → AreNumbered (decode_mappings s)
unfolding decode_mappings
decode_mappings-AreNumbered s = lines_loop-AreNumbered (length s) 0 s _ [] (omega arith) refl tt
