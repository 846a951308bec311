-- ===== src/SourceMap/Event/Views.antt =====
-- internal/sourcemap/event.go: SymbolicateEvent, with its loops over exceptions and frames and its cache.
pub mod Cached
pub mod Listing
pub mod Current
mod Tests
use bug_han.Prelude.{
  ℕ, Bool, true, false, ◌&&◌, Option, none, some, List, [], ◌∷◌, Bytes, if◌then◌else◌, ◌==◌, eqb,
  is_empty,
}
use bug_han.SourceMap.Map.{Map}
use bug_han.SourceMap.Resolve.{Artifact, Index, Libraries, resolve_map}
use bug_han.SourceMap.Symbolicate.{symbolicate_frame}
use bug_han.SourceMap.Event.{
  Image, RawFrame, RawException, EventView, FrameView, ExceptionResult, EventResult, ReleaseFile,
  Progress, result_v, first_non_empty, load_artifacts, artifact_set_key, image_debug_ids, received,
  note_missing, overlaid, frame_of,
}

-- the codecs, the digest and what the resolution of maps uses
pub record Codecs : Type 0 where
  pub decode_payload : Bytes → Option EventView
  pub decode_result : Bytes → Option EventResult
  pub encode_result : EventResult → Bytes
  pub sha256 : Bytes → Bytes
  pub maps : Libraries

module _ (lib : Codecs) (payload : EventView) (ix : Index) where
  -- a frame whose map is there
  pub view_mapped : Map → RawFrame → Progress → FrameView × Progress
  view_mapped m f progress =
      let r = symbolicate_frame m (frame_of f) in
      if r.resolved
      then (overlaid (received f) r, record progress { symbolicated = true })
      else (received f, progress)

  -- the body of the loop over the frames
  pub view_frame : RawFrame → Progress → FrameView × Progress
  view_frame f progress =
      elim (resolve_map lib.maps ix (first_non_empty f.abs_path f.filename)
        (image_debug_ids payload.images f.abs_path f.filename)) [
          | none ↦ (received f, note_missing payload f progress)
          | some (a, m) ↦ view_mapped m f progress
        ]

  pub view_frames : List RawFrame → Progress → List FrameView × Progress
  view_frames [] progress = ([], progress)
  view_frames (f ∷ frames) progress =
      let (fv, progress') = view_frame f progress in
      let (views, done) = view_frames frames progress' in (fv ∷ views, done)

  -- the loop over the exceptions
  pub view_exceptions : List RawException → Progress → List ExceptionResult × Progress
  view_exceptions [] progress = ([], progress)
  view_exceptions (e ∷ exceptions) progress =
      let (views, progress') = view_frames e.frames progress in
      let (rest, done) = view_exceptions exceptions progress' in
      (record { type = e.type; value = e.value; frames = views } ∷ rest, done)

module _ (lib : Codecs) where
  -- the stored result, where it was computed from the same artifacts
  pub cached_result : Bytes → Bytes → Option EventResult
  cached_result cache_key stored =
      if is_empty stored then none else elim (lib.decode_result stored) [
        | none ↦ none
        | some r ↦ if r.v == result_v && eqb r.cache_key cache_key then some r else none
      ]

  -- the result where nothing is cached
  pub view_event : EventView → Bytes → List Artifact → EventResult
  view_event payload cache_key arts =
      let (views, done) =
        view_exceptions lib payload (record { artifacts = arts; dist = payload.dist })
          payload.exceptions (record { missing_maps = []; symbolicated = false }) in
      if is_empty payload.release
      then record {
        v = result_v;
        cache_key = cache_key;
        symbolicated = false;
        no_release = true;
        exceptions = [];
        missing_maps = [];
      }
      else record {
        v = result_v;
        cache_key = cache_key;
        symbolicated = done.symbolicated;
        no_release = false;
        exceptions = views;
        missing_maps = done.missing_maps;
      }

  -- SymbolicateEvent: the result with the column after it; `none` where the payload is not read
  pub symbolicate_event : Bytes → List ReleaseFile → Bytes → Bytes → Option (EventResult × Bytes)
  symbolicate_event project_id files raw stored = elim (lib.decode_payload raw) [
    | none ↦ none
    | some payload ↦
        let arts = load_artifacts project_id payload.release files in
        let key = artifact_set_key lib.sha256 payload.release arts in
        let res = view_event payload key arts in
        elim (cached_result key stored) [
          | some r ↦ some (r, stored)
          | none ↦ some (res, lib.encode_result res)
        ]
  ]
