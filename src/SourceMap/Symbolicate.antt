-- ===== src/SourceMap/Symbolicate.antt =====
-- internal/sourcemap/symbolicate.go: one minified frame mapped onto a parsed source map.
pub mod Snippets
use bug_han.Prelude.{
  ℕ, zero, suc, ◌+◌, ◌-◌, Bool, true, false, not, ◌&&◌, ◌||◌, Option, none, some, List, [], ◌∷◌,
  ◌++◌, Bytes, codes, ltb, leb, ◌==◌, if◌then◌else◌, length, get_or, get_elem?, is_empty,
  has_prefix, split,
}
use bug_han.Prelude.Int.{ℤ, pos, negsuc, ltb_ℤ}
use bug_han.SourceMap.Map.{Map, Segment, lookup, add64}

-- Frame
pub record Frame : Type 0 where
  pub lineno : ℤ
  pub colno : ℤ
  pub abs_path : Bytes
  pub filename : Bytes
  pub function : Bytes

-- Snippet
pub record Snippet : Type 0 where
  pub path : Bytes
  pub line : ℤ
  pub pre : List Bytes
  pub line_text : Bytes
  pub post : List Bytes

-- FrameResult
pub record FrameResult : Type 0 where
  pub resolved : Bool
  pub source : Bytes
  pub src_line : ℤ
  pub src_col : ℤ
  pub function : Bytes
  pub context : Option Snippet

abbrev pub unresolved : FrameResult
unresolved = record {
  resolved = false;
  source = [];
  src_line = pos 0;
  src_col = pos 0;
  function = [];
  context = none;
}

abbrev pub snippet_radius : ℕ
snippet_radius = 2

-- strings.TrimSuffix(root, "/")
pub trim_slash : Bytes → Bytes
trim_slash [] = []
trim_slash (b ∷ []) = if b == b'/' then [] else b ∷ []
trim_slash (b ∷ c ∷ s) = b ∷ trim_slash (c ∷ s)

-- joinSourceRoot
pub join_source_root : Bytes → Bytes → Bytes
join_source_root root source =
    let root' = trim_slash root in
    if is_empty root'
    then source
    else if has_prefix source (codes "/")
    then root' ++ source
    else root' ++ b'/' ∷ source

-- `for i := line - 2; i >= 0 && len(s.Pre) < snippetRadius; i--`, where `i` counts the lines above
pub pre_loop : List Bytes → ℕ → List Bytes → List Bytes
pre_loop lines zero pre = pre
pre_loop lines (suc i) pre =
    let more = pre_loop lines i (pre ++ get_or lines i [] ∷ []) in
    if ltb (length pre) snippet_radius then more else pre

-- `for i := line; i < len(lines) && len(s.Post) < snippetRadius; i++`, with the rounds that are left
pub post_loop : ℕ → List Bytes → ℕ → List Bytes → List Bytes
post_loop zero lines i post = post
post_loop (suc fuel) lines i post =
    let more = post_loop fuel lines (i + 1) (post ++ get_or lines i [] ∷ []) in
    if ltb i (length lines) && ltb (length post) snippet_radius then more else post

-- snippetAt
pub snippet_at : Bytes → Bytes → ℤ → Option Snippet
snippet_at path content (negsuc n) = none
snippet_at path content (pos line) =
    let lines = split content b'\n' in
    if ltb line 1 || ltb (length lines) line
    then none
    else some (record {
      path = path;
      line = pos line;
      line_text = get_or lines (line - 1) [];
      pre = pre_loop lines (line - 1) [];
      post = post_loop (length lines) lines line [];
    })

-- i - 1 and i + 1 on int
abbrev pub pred_ℤ : ℤ → ℤ
pred_ℤ (pos zero) = negsuc 0
pred_ℤ (pos (suc n)) = pos n
pred_ℤ (negsuc n) = negsuc (suc n)

-- xs[i] where 0 ≤ i < len(xs)
abbrev at : List Bytes → ℤ → Option Bytes
at xs (pos i) = get_elem? xs i
at xs (negsuc n) = none

-- xs[i] where i < len(xs) and the entry is not nil
abbrev content_at : List (Option Bytes) → ℤ → Option Bytes
content_at xs (pos i) = get_or xs i none
content_at xs (negsuc n) = none

-- the result for a segment whose source is `source`
pub frame_result : Map → Segment → Bytes → FrameResult
frame_result m seg source =
    let joined = join_source_root m.source_root source in
    let line = add64 seg.src_line (pos 1) in
    record {
      resolved = true;
      source = joined;
      src_line = line;
      src_col = add64 seg.src_col (pos 1);
      function = elim (at m.names seg.name_idx) [ none ↦ [] | some name ↦ name ];
      context = elim (content_at m.sources_content seg.src_idx) [
        | none ↦ none
        | some content ↦ snippet_at joined content line
      ];
    }

-- SymbolicateFrame
pub symbolicate_frame : Map → Frame → FrameResult
symbolicate_frame m f =
    if not (ltb_ℤ (pos 0) f.lineno) || not (ltb_ℤ (pos 0) f.colno)
    then unresolved
    else elim (lookup m (pred_ℤ f.lineno) (pred_ℤ f.colno)) [
      | none ↦ unresolved
      | some seg ↦ elim (at m.sources seg.src_idx) [
        | none ↦ unresolved
        | some source ↦ frame_result m seg source
      ]
    ]
