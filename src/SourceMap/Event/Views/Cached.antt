-- ===== src/SourceMap/Event/Views/Cached.antt =====
-- The view of an event is bounded, and its stored form is found again.
use bug_han.Prelude.{
  ◌+◌, ◌≤◌, ◌≡◌, refl, true, false, not, ◌&&◌, Option, none, some, List, [], ◌∷◌, Bytes, arith, ltb,
  eqb, eqb_refl, is_empty, any, length, length-append, and_right, Bool-cases, inl, inr,
}
use bug_han.SourceMap.Map.{Map}
use bug_han.SourceMap.Resolve.{Artifact, Index, resolve_map}
use bug_han.SourceMap.Symbolicate.{symbolicate_frame}
use bug_han.SourceMap.Event.{
  RawFrame, RawException, EventView, FrameView, EventResult, MissingMap, ReleaseFile, Progress,
  result_v, missing_map_cap, first_non_empty, load_artifacts, artifact_set_key, image_debug_ids,
  received, note_missing, frame_of,
}
use bug_han.SourceMap.Event.Views.{
  Codecs, view_mapped, view_frame, view_frames, view_exceptions, cached_result, view_event,
  symbolicate_event,
}

-- the hint for a frame without a map
abbrev hint : EventView → RawFrame → MissingMap
hint payload f = record { abs_path = f.abs_path; release = payload.release; dist = payload.dist }

abbrev IsBounded : Progress → Type 0
IsBounded progress = length progress.missing_maps ≤ missing_map_cap

note_missing-IsBounded :
    (payload : EventView) (f : RawFrame) (progress : Progress)
    → IsBounded progress
    → IsBounded (note_missing payload f progress)
unfolding note_missing
note_missing-IsBounded payload f progress h =
    elim (Bool-cases (
      not (is_empty f.abs_path)
      && (not (any (λ m. eqb m.abs_path f.abs_path) progress.missing_maps)
          && ltb (length progress.missing_maps) missing_map_cap))) [
            | inr full ↦ rw full h
            | inl room ↦
                let below : ltb (length progress.missing_maps) missing_map_cap ≡ true =
                  and_right (not (any (λ m. eqb m.abs_path f.abs_path) progress.missing_maps)) _
                    (and_right (not (is_empty f.abs_path)) _ room) in
                let more : length progress.missing_maps + 1 ≤ missing_map_cap = ground arith in
                rw room (omega (arith, length-append progress.missing_maps (hint payload f ∷ [])))
          ]

abbrev LeavesBounded : FrameView × Progress → Type 0
LeavesBounded (fv, progress) = IsBounded progress

module _ (lib : Codecs) (payload : EventView) (ix : Index) where
  view_mapped-IsBounded :
      (m : Map) (f : RawFrame) (progress : Progress)
      → IsBounded progress
      → IsBounded (view_mapped lib payload ix m f progress).1
  unfolding view_mapped
  view_mapped-IsBounded m f progress h =
      elim (Bool-cases (symbolicate_frame m (frame_of f)).resolved) [
        | inl r ↦ rw r h
        | inr r ↦ rw r h
      ]

  resolved-IsBounded :
      (o : Option (Artifact × Map)) (f : RawFrame) (progress : Progress)
      → IsBounded progress
      → LeavesBounded (elim o [
        | none ↦ (received f, note_missing payload f progress)
        | some (a, m) ↦ view_mapped lib payload ix m f progress
      ])
  resolved-IsBounded none f progress h = note_missing-IsBounded payload f progress h
  resolved-IsBounded (some (a, m)) f progress h = view_mapped-IsBounded m f progress h

  view_frame-IsBounded :
      (f : RawFrame) (progress : Progress)
      → IsBounded progress
      → IsBounded (view_frame lib payload ix f progress).1
  unfolding view_frame
  view_frame-IsBounded f progress h =
      resolved-IsBounded
        (resolve_map lib.maps ix (first_non_empty f.abs_path f.filename)
          (image_debug_ids payload.images f.abs_path f.filename))
        f progress h

  view_frames-IsBounded :
      (frames : List RawFrame) (progress : Progress)
      → IsBounded progress
      → IsBounded (view_frames lib payload ix frames progress).1
  unfolding view_frames
  view_frames-IsBounded [] progress h = h
  view_frames-IsBounded (f ∷ frames) progress h =
      view_frames-IsBounded frames (view_frame lib payload ix f progress).1
        (view_frame-IsBounded f progress h)

  view_exceptions-IsBounded :
      (exceptions : List RawException) (progress : Progress)
      → IsBounded progress
      → IsBounded (view_exceptions lib payload ix exceptions progress).1
  unfolding view_exceptions
  view_exceptions-IsBounded [] progress h = h
  view_exceptions-IsBounded (e ∷ exceptions) progress h =
      view_exceptions-IsBounded exceptions (view_frames lib payload ix e.frames progress).1
        (view_frames-IsBounded e.frames progress h)

-- a result of this version for a set of artifacts, with at most 20 hints
pub record IsView (cache_key : Bytes) (r : EventResult) : Type 0 where
  pub version : r.v ≡ result_v
  pub key : r.cache_key ≡ cache_key
  pub few : length r.missing_maps ≤ missing_map_cap

module _ (lib : Codecs) where
  pub view_event-IsView :
      (payload : EventView) (key : Bytes) (arts : List Artifact)
      → IsView key (view_event lib payload key arts)
  unfolding view_event
  view_event-IsView payload key arts = elim (Bool-cases (is_empty payload.release)) [
    | inl e ↦ rw e (record { version = refl; key = refl; few = omega arith })
    | inr e ↦ rw e (record {
      version = refl;
      key = refl;
      few = view_exceptions-IsBounded lib payload _ payload.exceptions _ (omega arith);
    })
  ]

  -- a result that is stored is read back as it was
  pub record ReadsBack (r : EventResult) : Type 0 where
    pub read_back : lib.decode_result (lib.encode_result r) ≡ some r
    pub nonempty : is_empty (lib.encode_result r) ≡ false

  pub cached_result-encode :
      (key : Bytes) (r : EventResult)
      → ReadsBack r
      → IsView key r
      → cached_result lib key (lib.encode_result r) ≡ some r
  unfolding cached_result
  cached_result-encode key r c i =
      let same : eqb r.cache_key key ≡ true = rw (i.key) (eqb_refl key) in
      rw (c.nonempty, c.read_back, i.version, same) refl

  -- the result of a payload where nothing is cached
  abbrev pub fresh_view : Bytes → List ReleaseFile → EventView → EventResult
  fresh_view project_id files payload =
      let arts = load_artifacts project_id payload.release files in
      view_event lib payload (artifact_set_key lib.sha256 payload.release arts) arts

  pub decoded :
      (project_id : Bytes) (files : List ReleaseFile) (raw column : Bytes) (payload : EventView)
      → lib.decode_payload raw ≡ some payload
      → symbolicate_event lib project_id files raw column
        ≡ (elim (cached_result lib
            (artifact_set_key lib.sha256 payload.release
              (load_artifacts project_id payload.release files))
            column) [
              | some c ↦ some (c, column)
              | none ↦ some (
                fresh_view project_id files payload,
                lib.encode_result (fresh_view project_id files payload),
              )
            ])
  unfolding symbolicate_event
  decoded project_id files raw column payload d = rw (d, symbolicate_event) refl
