-- ===== src/SourceMap/Tests.antt =====
-- Runs of the source map code on concrete values, and the theorems at inputs that meet their
-- hypotheses.
use bug_han.Prelude.{
  ◌≡◌, none, some, List, [], ◌∷◌, Bytes, codes, arith, if◌then◌else◌, All, split, has_prefix, join,
}
use bug_han.Prelude.Int.{ℤ, pos, negsuc}
use bug_han.SourceMap.Vlq
use bug_han.SourceMap.Vlq.{decode_vlq_segment}
use bug_han.SourceMap.Vlq.RoundTrip.{encode_segment, vlq_value, decode-encode_segment}
use bug_han.SourceMap.Map.{Segment, Map, lookup, decode_mappings}
use bug_han.SourceMap.Map.Lookup.{last_upto, IsNearest, lookup-last_upto, lookup-IsNearest}
use bug_han.SourceMap.Map.Lines.{AreNumbered, decode_mappings-AreNumbered}
use bug_han.SourceMap.Symbolicate.{Snippet, snippet_at}
use bug_han.SourceMap.Symbolicate.Snippets.{IsStretch, snippet_at-IsStretch}
use bug_han.SourceMap.Paths.{clean_path}
use bug_han.SourceMap.Paths.Clean.{IsName, clean_path_lem}

abbrev deltas : List ℤ
deltas = pos 7 ∷ negsuc 40 ∷ pos 1000000 ∷ []

decode-encode_segment_example : decode_vlq_segment (encode_segment deltas) ≡ Vlq.ok deltas
unfolding vlq_value
decode-encode_segment_example =
    decode-encode_segment deltas (omega arith, (omega arith, (omega arith, tt)))

abbrev segment_at : ℤ → Segment
segment_at col = record {
  gen_line = 0;
  gen_col = col;
  src_idx = pos 0;
  src_line = pos 4;
  src_col = pos 2;
  name_idx = negsuc 0;
}

abbrev one_line : Map
one_line = record {
  version = pos 3;
  sources = codes "app.ts" ∷ [];
  sources_content = none ∷ [];
  names = [];
  source_root = [];
  debug_id = [];
  lines = (segment_at (pos 0) ∷ segment_at (pos 6) ∷ segment_at (pos 9) ∷ []) ∷ [];
}

lookup-last_upto_example :
    lookup one_line (pos 0) (pos 7)
    ≡ last_upto (segment_at (pos 0) ∷ segment_at (pos 6) ∷ segment_at (pos 9) ∷ []) (pos 7)
lookup-last_upto_example =
    lookup-last_upto one_line 0 (pos 7)
      ((omega arith, (omega arith, tt)), ((omega arith, tt), (tt, tt)))

lookup_runs : lookup one_line (pos 0) (pos 7) ≡ some (segment_at (pos 6))
unfolding last_upto
lookup_runs = lookup-last_upto_example

lookup-IsNearest_example :
    IsNearest
      (segment_at (pos 0) ∷ segment_at (pos 6) ∷ segment_at (pos 9) ∷ [])
      (pos 7)
      (segment_at (pos 6))
lookup-IsNearest_example =
    lookup-IsNearest one_line 0 (pos 7) (segment_at (pos 6))
      ((omega arith, (omega arith, tt)), ((omega arith, tt), (tt, tt))) lookup_runs

decode_mappings-AreNumbered_example : AreNumbered (decode_mappings (codes "AAAA,GAAG;;CAAC"))
decode_mappings-AreNumbered_example = decode_mappings-AreNumbered (codes "AAAA,GAAG;;CAAC")

abbrev source_text : Bytes
source_text = codes "one\ntwo\nthree\nfour"

snippet_at-IsStretch_example :
    (s : Snippet) × (snippet_at (codes "app.ts") source_text (pos 2) ≡ some s)
    × IsStretch s (split source_text b'\n') 2
snippet_at-IsStretch_example =
    snippet_at-IsStretch (codes "app.ts") source_text 2 (omega arith) (omega arith)

clean_path_lem_example :
    (out : List Bytes) × All IsName out
    × (clean_path (codes "/a/../b/./c") ≡ (
        if has_prefix (codes "/a/../b/./c") (codes "/")
        then b'/' ∷ join out b'/'
        else join out b'/'))
    × (clean_path (clean_path (codes "/a/../b/./c")) ≡ clean_path (codes "/a/../b/./c"))
clean_path_lem_example = clean_path_lem (codes "/a/../b/./c")
