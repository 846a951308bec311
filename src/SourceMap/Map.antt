-- ===== src/SourceMap/Map.antt =====
-- internal/sourcemap/map.go: the parsed source map, the decoding of its mappings and the lookup of a
-- generated position. Positions are signed, and sums of deltas wrap as int64. The JSON decoder is a
-- parameter of `parse_map`. The loops over the text take fuel, one unit for each byte and more.
mod Search
pub mod Lookup
pub mod Lines
use bug_han.Prelude.{
  ℕ, zero, suc, ◌+◌, ◌-◌, ◌%◌, ◌^◌, ◌<◌, Bool, true, false, not, ◌||◌, Option, none, some, List, [],
  ◌∷◌, ◌++◌, Bytes, ltb, leb, ◌==◌, if◌then◌else◌, length, get_or, get_elem?, cut_byte, is_empty,
}
use bug_han.Prelude.Int.{ℤ, pos, negsuc, ltb_ℤ}
use bug_han.SourceMap.Vlq
use bug_han.SourceMap.Vlq.{VlqError, signed64, decode_vlq_segment}
use Search.{search}

-- a + b on int64
pub pattern64 : ℤ → ℕ
pattern64 (pos n) = n % 2 ^ 64
pattern64 (negsuc n) = 2 ^ 64 - 1 - n % 2 ^ 64

pub add64 : ℤ → ℤ → ℤ
add64 a b = signed64 ((pattern64 a + pattern64 b) % 2 ^ 64)

-- Segment
pub record Segment : Type 0 where
  pub gen_line : ℕ
  pub gen_col : ℤ
  pub src_idx : ℤ
  pub src_line : ℤ
  pub src_col : ℤ
  pub name_idx : ℤ

-- Map
pub record Map : Type 0 where
  pub version : ℤ
  pub sources : List Bytes
  pub sources_content : List (Option Bytes)
  pub names : List Bytes
  pub source_root : Bytes
  pub debug_id : Bytes
  pub lines : List (List Segment)

-- rawMap
pub record RawMap : Type 0 where
  pub version : ℤ
  pub sources : List Bytes
  pub sources_content : List (Option Bytes)
  pub names : List Bytes
  pub source_root : Bytes
  pub mappings : Bytes
  pub debug_id : Bytes

pub data MapError : Type 0 where
  json : MapError
  version : ℤ → MapError
  bad_vlq : ℕ → VlqError → MapError
  field_count : ℕ → ℕ → MapError
  out_of_fuel : MapError

pub data Result {ℓ} (A : Type ℓ) : Type ℓ where
  ok : A → Result A
  err : MapError → Result A

infixl 5 ◌>>=◌
abbrev pub ◌>>=◌ {ℓ κ} : {A : Type ℓ} {B : Type κ} → Result A → (A → Result B) → Result B
ok a >>= f = f a
err e >>= f = err e

-- the variables of decodeMappings that live across segments, and those of the line
pub record Cursor : Type 0 where
  pub gen_col : ℤ
  pub src_idx : ℤ
  pub src_line : ℤ
  pub src_col : ℤ
  pub name_idx : ℤ
  pub segs : List Segment

-- the text before the separator and the text behind it; all and nothing where there is none
pub cut_at : ℕ → Bytes → Bytes × Bytes
cut_at sep s = elim (cut_byte sep s) [ none ↦ (s, []) | some (l, r) ↦ (l, r) ]

abbrev field : List ℤ → ℕ → ℤ
field fields i = get_or fields i (pos 0)

-- a segment of one field, of four and of five
pub place : ℕ → List ℤ → Cursor → Cursor
place line fields c =
    let gen_col = add64 c.gen_col (field fields 0) in
    let src_idx = add64 c.src_idx (field fields 1) in
    let src_line = add64 c.src_line (field fields 2) in
    let src_col = add64 c.src_col (field fields 3) in
    let name_idx = add64 c.name_idx (field fields 4) in
    if leb 4 (length fields)
    then if length fields == 5
      then record {
        gen_col = gen_col;
        src_idx = src_idx;
        src_line = src_line;
        src_col = src_col;
        name_idx = name_idx;
        segs =
            c.segs
            ++ record {
              gen_line = line;
              gen_col = gen_col;
              src_idx = src_idx;
              src_line = src_line;
              src_col = src_col;
              name_idx = name_idx;
            }
              ∷ [];
      }
      else record {
        gen_col = gen_col;
        src_idx = src_idx;
        src_line = src_line;
        src_col = src_col;
        name_idx = c.name_idx;
        segs =
            c.segs
            ++ record {
              gen_line = line;
              gen_col = gen_col;
              src_idx = src_idx;
              src_line = src_line;
              src_col = src_col;
              name_idx = negsuc 0;
            }
              ∷ [];
      }
    else record c {
      gen_col = gen_col;
      segs =
          c.segs
          ++ record {
            gen_line = line;
            gen_col = gen_col;
            src_idx = negsuc 0;
            src_line = pos 0;
            src_col = pos 0;
            name_idx = negsuc 0;
          }
            ∷ [];
    }

-- the body of the loop over the segments of a line
pub add_fields : ℕ → List ℤ → Cursor → Result Cursor
add_fields line fields c =
    if ltb (length fields) 1 || (length fields == 2 || ltb 5 (length fields))
    then err (field_count line (length fields))
    else ok (place line fields c)

pub add_segment : ℕ → Bytes → Cursor → Result Cursor
add_segment line text c = elim (decode_vlq_segment text) [
  | Vlq.ok fields ↦ add_fields line fields c
  | Vlq.err e ↦ err (bad_vlq line e)
]

-- `for len(segsPart) > 0`
pub segs_loop : ℕ → ℕ → Bytes → Cursor → Result Cursor
segs_loop fuel line [] c = ok c
segs_loop zero line (b ∷ s) c = err out_of_fuel
segs_loop (suc fuel) line (b ∷ s) c =
    let (text, rest) = cut_at b',' (b ∷ s) in
    let skip = segs_loop fuel line rest c in
    let take_it = add_segment line text c >>= λ c'. segs_loop fuel line rest c' in
    if is_empty text then skip else take_it

-- `for line := 0; len(s) > 0; line++`
unfoldable pub lines_loop :
    ℕ → ℕ → Bytes → Cursor → List (List Segment) → Result (List (List Segment))
lines_loop fuel line [] c lines = ok lines
lines_loop zero line (b ∷ s) c lines = err out_of_fuel
lines_loop (suc fuel) line (b ∷ s) c lines =
    let (part, rest) = cut_at b';' (b ∷ s) in
    segs_loop (length part) line part (record c { gen_col = pos 0; segs = [] }) >>= λ c'.
    lines_loop fuel (line + 1) rest c' (lines ++ c'.segs ∷ [])

-- decodeMappings
unfoldable pub decode_mappings : Bytes → Result (List (List Segment))
decode_mappings s =
    lines_loop (length s) 0 s
      (record {
        gen_col = pos 0;
        src_idx = pos 0;
        src_line = pos 0;
        src_col = pos 0;
        name_idx = pos 0;
        segs = [];
      })
      []

abbrev is_three : ℤ → Bool
is_three (pos n) = n == 3
is_three (negsuc n) = false

-- ParseMap over the decoded JSON document
unfoldable pub parse_map : (Bytes → Option RawMap) → Bytes → Result Map
parse_map unmarshal text = elim (unmarshal text) [
  | none ↦ err json
  | some raw ↦
      if is_three raw.version
      then (decode_mappings raw.mappings >>= λ lines. ok (record {
        version = raw.version;
        sources = raw.sources;
        sources_content = raw.sources_content;
        names = raw.names;
        source_root = raw.source_root;
        debug_id = raw.debug_id;
        lines = lines;
      }))
      else err (version raw.version)
]

abbrev pub no_segment : Segment
no_segment = record {
  gen_line = 0;
  gen_col = pos 0;
  src_idx = pos 0;
  src_line = pos 0;
  src_col = pos 0;
  name_idx = pos 0;
}

-- the search within one line of Lookup
pub lookup_line : List Segment → ℤ → Option Segment
lookup_line segs col =
    let i = search (length segs) (λ k. ltb_ℤ col (get_or segs k no_segment).gen_col) in
    if length segs == 0 then none else if i == 0 then none else get_elem? segs (i - 1)

-- Lookup; `none` is ok=false
pub lookup : Map → ℤ → ℤ → Option Segment
lookup m (negsuc n) col = none
lookup m (pos line) col =
    if leb (length m.lines) line then none else lookup_line (get_or m.lines line []) col
