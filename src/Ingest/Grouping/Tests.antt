-- ===== src/Ingest/Grouping/Tests.antt =====
-- Grouping at concrete events, with a digest that keeps its input.
use bug_han.Prelude.{◌≡◌, ◌≢◌, refl, true, some, none, List, [], ◌∷◌, codes, length}
use bug_han.Ingest.Grouping.{
  Frame, choose_frame, normalized_culprit, normalize_title, fingerprint_v1, parameterize,
  truncate_grouping, is_eligible, is_in_app, is_anonymous_frame, is_webpack_frame, render_frame,
  strip_query_fragment, normalize_bundle_path, normalize_segment, is_all_hex,
}
use bug_han.Ingest.Patterns.{
  replace_num, replace_hex, replace_uuid, fits, flush, dotted_hash, dash_hash, extension,
}
use bug_han.Ingest.Grouping.Frames.{TopOf, choose_frame_lem}
use bug_han.Ingest.Grouping.Fingerprints.{fingerprint_v1-apart}

abbrev app_frame : Frame
app_frame = record {
  filename = codes "https://x.io/static/main.9ab34f.js?v=2";
  abs_path = [];
  function = codes "pay";
  module_name = [];
  in_app = some true;
}

abbrev frames : List Frame
frames =
    app_frame
    ∷ (record app_frame { function = codes "?" })
    ∷ (record app_frame { in_app = none })
    ∷ []

uuid_title :
    normalize_title (codes "Error") (codes "id 123e4567-e89b-12d3-a456-426614174000 at 42")
    ≡ codes "Error: id {uuid} at {num}"
unfolding normalize_title parameterize truncate_grouping replace_num replace_hex replace_uuid fits
    flush
uuid_title = refl

hex_title : normalize_title [] (codes "deadbeef01 face 7") ≡ codes "{hex} face {num}"
unfolding normalize_title parameterize truncate_grouping replace_num replace_hex replace_uuid fits
    flush
hex_title = refl

culprit : normalized_culprit frames ≡ codes "https://x.io/static/main.{hash}.js in pay"
unfolding normalized_culprit choose_frame is_eligible is_in_app is_anonymous_frame is_webpack_frame
    render_frame strip_query_fragment normalize_bundle_path normalize_segment is_all_hex dotted_hash
    dash_hash extension
culprit = refl

dash_path :
    normalize_bundle_path (codes "a1b2c3d4e5f6/index-9ab34f12ab.js")
    ≡ codes "{hash}/index-{hash}.js"
unfolding normalize_bundle_path normalize_segment is_all_hex dotted_hash dash_hash extension
dash_path = refl

choose_frame_lem_example : TopOf frames (choose_frame frames (length frames))
choose_frame_lem_example = choose_frame_lem frames

fingerprint_v1-apart_example :
    fingerprint_v1 (λ s. s) (codes "{{ default }}" ∷ []) [] []
    ≢ fingerprint_v1 (λ s. s) [] (codes "E") []
fingerprint_v1-apart_example =
    fingerprint_v1-apart (λ s. s) (codes "{{ default }}") [] [] [] (codes "E") []
