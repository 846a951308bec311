-- ===== src/SourceMap/Paths.antt =====
-- The path functions of internal/sourcemap/resolve.go. Parsing and resolving a URL is net/url, a
-- parameter: for a base and a reference that both parse, the text of the resolved URL.
pub mod Clean
use bug_han.Prelude.{
  ℕ, ◌+◌, Bool, true, false, ◌||◌, Option, none, some, List, [], ◌∷◌, ◌++◌, Bytes, codes, ◌==◌,
  if◌then◌else◌, eqb, is_empty, has_prefix, split, join, trim_space, take_until, from_byte,
  cut_text, cut_last,
}

-- pathBase
pub path_base : Bytes → Bytes
path_base p = elim (cut_last b'/' p) [ none ↦ p | some (dir, base) ↦ base ]

-- out[:len(out)-1]
pub drop_last : List Bytes → List Bytes
drop_last [] = []
drop_last (p ∷ []) = []
drop_last (p ∷ q ∷ ps) = p ∷ drop_last (q ∷ ps)

-- the loop of cleanPath over the segments
pub clean_step : List Bytes → Bytes → List Bytes
clean_step out s =
    if is_empty s || eqb s (codes ".")
    then out
    else if eqb s (codes "..")
    then drop_last out
    else out ++ s ∷ []

pub clean_loop : List Bytes → List Bytes → List Bytes
clean_loop [] out = out
clean_loop (s ∷ segs) out = clean_loop segs (clean_step out s)

-- cleanPath
pub clean_path : Bytes → Bytes
clean_path p =
    let joined = join (clean_loop (split p b'/') []) b'/' in
    if has_prefix p (codes "/") then b'/' ∷ joined else joined

-- normalizePathJoin
pub normalize_path_join : Bytes → Bytes → Bytes
normalize_path_join dir ref =
    if has_prefix ref (codes "/")
    then clean_path ref
    else if is_empty dir
    then clean_path ref
    else clean_path (dir ++ b'/' ∷ ref)

-- joinReference
pub join_reference : (Bytes → Bytes → Option Bytes) → Bytes → Bytes → Bytes
join_reference resolve_url base ref =
    let dir : Bytes = elim (cut_last b'/' base) [ none ↦ [] | some (dir, name) ↦ dir ] in
    let local = normalize_path_join dir ref in
    if has_prefix base (codes "http://") || has_prefix base (codes "https://")
    then elim (resolve_url base ref) [ some url ↦ url | none ↦ local ]
    else local

abbrev is_query : ℕ → Bool
is_query b = b == b'?' || b == b'#'

-- normalizePath
pub normalize_path : Bytes → Bytes
normalize_path s =
    let bare = take_until is_query (trim_space s) in
    elim (cut_text (codes "://") bare) [
      | none ↦ bare
      | some (scheme, rest) ↦ elim (from_byte b'/' rest) [ none ↦ bare | some path ↦ path ]
    ]
