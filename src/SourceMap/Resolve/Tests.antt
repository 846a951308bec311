-- ===== src/SourceMap/Resolve/Tests.antt =====
-- A run of the resolution of maps, and its theorem at an input that meets the hypothesis.
use bug_han.Prelude.{◌≡◌, refl, none, some, [], ◌∷◌, codes}
use bug_han.Prelude.Int.{pos}
use bug_han.SourceMap.Map.{Map, parse_map, decode_mappings, lines_loop}
use bug_han.SourceMap.Resolve.{
  Artifact, Index, Libraries, resolve_map, by_image_ids, by_debug, candidates, exact_of, bare_of,
  add_debug, put, lookup, with_map, parse_map_artifact, parsed, or_else,
}
use bug_han.SourceMap.Resolve.Visible.{IsVisible, resolve_map-IsVisible}

abbrev one_line : Map
one_line = record {
  version = pos 3;
  sources = codes "app.ts" ∷ [];
  sources_content = none ∷ [];
  names = [];
  source_root = [];
  debug_id = [];
  lines = [];
}

-- an artifact with its map beside it
abbrev script : Artifact
script = record {
  name = codes "~/app.js";
  dist = [];
  sha256 = [];
  debug_id = codes "abc";
  sourcemap_url = [];
  body = codes "{}";
}

abbrev uploads : Index
uploads = record { artifacts = script ∷ []; dist = codes "42" }

-- libraries that read every document as a map without mappings
abbrev stand_ins : Libraries
stand_ins = record {
  unmarshal = λ t. some (record {
    version = pos 3;
    sources = codes "app.ts" ∷ [];
    sources_content = none ∷ [];
    names = [];
    source_root = [];
    mappings = [];
    debug_id = [];
  });
  base64 = λ t. none;
  unescape = λ t. none;
  resolve_url = λ b r. none;
}

resolve_map_runs : resolve_map stand_ins uploads [] (codes "ABC" ∷ []) ≡ some (script, one_line)
unfolding resolve_map by_image_ids by_debug candidates exact_of bare_of add_debug put lookup
    with_map parse_map_artifact parsed parse_map decode_mappings lines_loop or_else
resolve_map_runs = refl

resolve_map-IsVisible_example : IsVisible (script ∷ []) (codes "42") script
resolve_map-IsVisible_example =
    resolve_map-IsVisible stand_ins uploads [] (codes "ABC" ∷ []) script one_line resolve_map_runs
