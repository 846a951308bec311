-- ===== src/SourceMap/Resolve.antt =====
-- internal/sourcemap/resolve.go: which artifact's source map serves a frame. Strings are bytes; the
-- decoder of JSON, base64 and percent decoding and net/url are parameters.
pub mod Visible
mod Tests
use bug_han.Prelude.{
  ℕ, zero, suc, ◌+◌, Bool, true, false, not, ◌&&◌, ◌||◌, Option, none, some, List, [], ◌∷◌, ◌++◌,
  Bytes, codes, ◌==◌, if◌then◌else◌, eqb, is_empty, has_prefix, contains, cut_byte, to_lower,
}
use bug_han.SourceMap.Map.{Map, RawMap, ok, err, parse_map}
use bug_han.SourceMap.Paths.{path_base, normalize_path, join_reference}

-- Artifact
pub record Artifact : Type 0 where
  pub name : Bytes
  pub dist : Bytes
  pub sha256 : Bytes
  pub debug_id : Bytes
  pub sourcemap_url : Bytes
  pub body : Bytes

-- Index
pub record Index : Type 0 where
  pub artifacts : List Artifact
  pub dist : Bytes

-- the loop of candidates: the artifacts of the event's dist and those without one
pub exact_of : Bytes → List Artifact → List Artifact
exact_of dist [] = []
exact_of dist (a ∷ arts) =
    let rest = exact_of dist arts in
    if not (is_empty a.dist) && (not (is_empty dist) && eqb a.dist dist) then a ∷ rest else rest

pub bare_of : List Artifact → List Artifact
bare_of [] = []
bare_of (a ∷ arts) = let rest = bare_of arts in if is_empty a.dist then a ∷ rest else rest

-- candidates
pub candidates : Index → List Artifact
candidates ix = exact_of ix.dist ix.artifacts ++ bare_of ix.artifacts

-- a Go map from strings to artifacts: a write replaces what stood under the key
abbrev pub Names : Type 0
Names = List (Bytes × Artifact)

pub lookup : Bytes → Names → Option Artifact
lookup k [] = none
lookup k ((j, a) ∷ m) = if eqb j k then some a else lookup k m

pub put : Bytes → Artifact → Names → Names
put k a m = (k, a) ∷ m

-- the writes to byName for one candidate
pub add_name : Names → Artifact → Names
add_name m a =
    let named = put (normalize_path a.name) a (put a.name a m) in
    if not (is_empty (path_base a.name)) && not (eqb (path_base a.name) a.name)
    then put (path_base a.name) a named
    else named

-- the write to byDebug for one candidate
pub add_debug : Names → Artifact → Names
add_debug m a = if is_empty a.debug_id then m else put a.debug_id a m

pub by_name : List Artifact → Names → Names
by_name [] m = m
by_name (a ∷ arts) m = by_name arts (add_name m a)

pub by_debug : List Artifact → Names → Names
by_debug [] m = m
by_debug (a ∷ arts) m = by_debug arts (add_debug m a)

-- findArt
pub find_art : Names → Bytes → Option Artifact
find_art names path = elim (lookup path names) [
  | some a ↦ some a
  | none ↦ lookup (path_base path) names
]

-- what the code calls in libraries: the decoder of JSON, base64, percent decoding, net/url
pub record Libraries : Type 0 where
  pub unmarshal : Bytes → Option RawMap
  pub base64 : Bytes → Option Bytes
  pub unescape : Bytes → Option Bytes
  pub resolve_url : Bytes → Bytes → Option Bytes

module _ (lib : Libraries) where
  -- ParseMap, as the callers read it: `none` is nil
  pub parsed : Bytes → Option Map
  parsed text = elim (parse_map lib.unmarshal text) [ ok m ↦ some m | err e ↦ none ]

  -- parseMapArtifact
  pub parse_map_artifact : Artifact → Option Map
  parse_map_artifact a = if is_empty a.body then none else parsed a.body

  -- parseInlineMap
  pub parse_inline_map : Bytes → Option Map
  parse_inline_map url = elim (cut_byte b',' url) [
    | none ↦ none
    | some (meta, payload) ↦
        if contains meta (codes ";base64")
        then elim (lib.base64 payload) [ none ↦ none | some raw ↦ parsed raw ]
        else elim (lib.unescape payload) [ none ↦ parsed [] | some raw ↦ parsed raw ]
  ]

  -- the artifact with its map, where it has one
  pub with_map : Option Artifact → Option (Artifact × Map)
  with_map none = none
  with_map (some a) = elim (parse_map_artifact a) [ none ↦ none | some m ↦ some (a, m) ]

  -- the first of two answers
  pub or_else : Option (Artifact × Map) → Option (Artifact × Map) → Option (Artifact × Map)
  or_else (some r) next = some r
  or_else none next = next

  -- bySourcemapURL
  pub by_sourcemap_url : Names → Artifact → Bytes → Option (Artifact × Map)
  by_sourcemap_url names art frame_path =
      if has_prefix (to_lower art.sourcemap_url) (codes "data:")
      then elim (parse_inline_map art.sourcemap_url) [ none ↦ none | some m ↦ some (art, m) ]
      else with_map (
          find_art names (
            join_reference lib.resolve_url
              (if is_empty frame_path then normalize_path art.name else frame_path)
              art.sourcemap_url))

  -- step 1: the debug ids of the frame's images
  pub by_image_ids : Names → List Bytes → Option (Artifact × Map)
  by_image_ids debug [] = none
  by_image_ids debug (id ∷ ids) =
      or_else (with_map (lookup (to_lower id) debug)) (by_image_ids debug ids)

  -- step 2: the minified artifact itself
  pub by_artifact : Names → Names → Bytes → Option Artifact → Option (Artifact × Map)
  by_artifact names debug p none = none
  by_artifact names debug p (some art) =
      or_else (if is_empty art.debug_id then none else with_map (lookup art.debug_id debug))
        (if is_empty art.sourcemap_url then none else by_sourcemap_url names art p)

  -- ResolveMap; `none` is nil, nil
  pub resolve_map : Index → Bytes → List Bytes → Option (Artifact × Map)
  resolve_map ix abs_path image_ids =
      let p = normalize_path abs_path in
      let names = by_name (candidates ix) [] in
      let debug = by_debug (candidates ix) [] in
      or_else (by_image_ids debug image_ids) (
        or_else (by_artifact names debug p (find_art names p))
          (with_map (find_art names (p ++ codes ".map"))))
