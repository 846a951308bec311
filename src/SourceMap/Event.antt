-- ===== src/SourceMap/Event.antt =====
-- internal/sourcemap/event.go: the symbolicated view of an event, kept on the event's row. The files of
-- releases and the column `symbolicated` of the row are the state; the JSON codecs and SHA-256 are
-- parameters, and the row of the event is there.
pub mod Views
use bug_han.Prelude.{
  ℕ, ◌-◌, Bool, true, false, not, ◌&&◌, ◌||◌, Option, none, some, List, [], ◌∷◌, ◌++◌, map, Bytes,
  codes, if◌then◌else◌, ltb, leb, ◌==◌, eqb, is_empty, length, take, drop, any, to_lower,
}
use bug_han.Prelude.Int.{ℤ}
use bug_han.Ingest.Grouping.{hex}
use bug_han.SourceMap.Paths.{normalize_path, path_base}
use bug_han.SourceMap.Resolve.{Artifact, Index, Libraries, resolve_map}
use bug_han.SourceMap.Symbolicate
use bug_han.SourceMap.Symbolicate.{Snippet, FrameResult, symbolicate_frame}

-- an image of debug_meta
pub record Image : Type 0 where
  pub debug_id : Bytes
  pub code_file : Bytes

-- a frame of the payload
pub record RawFrame : Type 0 where
  pub lineno : ℤ
  pub colno : ℤ
  pub abs_path : Bytes
  pub filename : Bytes
  pub function : Bytes
  pub in_app : Option Bool

-- an exception of the payload
pub record RawException : Type 0 where
  pub type : Bytes
  pub value : Bytes
  pub frames : List RawFrame

-- the payload that SymbolicateEvent decodes
pub record EventView : Type 0 where
  pub release : Bytes
  pub dist : Bytes
  pub images : List Image
  pub exceptions : List RawException

-- FrameView
pub record FrameView : Type 0 where
  pub lineno : ℤ
  pub colno : ℤ
  pub abs_path : Bytes
  pub filename : Bytes
  pub in_app : Bool
  pub function : Bytes
  pub source : Bytes
  pub src_line : ℤ
  pub src_col : ℤ
  pub context : Option Snippet
  pub resolved : Bool

-- ExceptionResult
pub record ExceptionResult : Type 0 where
  pub type : Bytes
  pub value : Bytes
  pub frames : List FrameView

-- MissingMap, whose reason is always the same
pub record MissingMap : Type 0 where
  pub abs_path : Bytes
  pub release : Bytes
  pub dist : Bytes

-- EventResult
pub record EventResult : Type 0 where
  pub v : ℕ
  pub cache_key : Bytes
  pub symbolicated : Bool
  pub no_release : Bool
  pub exceptions : List ExceptionResult
  pub missing_maps : List MissingMap

-- a row of release_files, with the body in the artifact
pub record ReleaseFile : Type 0 where
  pub project_id : Bytes
  pub release : Bytes
  pub artifact : Artifact

-- resultV and missingMapCap
abbrev pub result_v : ℕ
result_v = 1

abbrev pub missing_map_cap : ℕ
missing_map_cap = 20

-- firstNonEmpty
abbrev pub first_non_empty : Bytes → Bytes → Bytes
first_non_empty a b = if is_empty a then b else a

-- hasSuffixFold and hasPrefixFold
pub has_suffix_fold : Bytes → Bytes → Bool
has_suffix_fold s suf =
    leb (length suf) (length s) && eqb (to_lower (drop (length s - length suf) s)) (to_lower suf)

pub has_prefix_fold : Bytes → Bytes → Bool
has_prefix_fold s pre =
    leb (length pre) (length s) && eqb (to_lower (take (length pre) s)) (to_lower pre)

-- `a.isMapish`
pub is_mapish : Artifact → Bool
is_mapish a =
    not (is_empty a.debug_id)
    || (has_suffix_fold a.name (codes ".map") || has_prefix_fold a.sourcemap_url (codes "data:"))

-- the artifacts of a release; only those that can serve as a map come with their body
pub artifacts_of : Bytes → Bytes → List ReleaseFile → List Artifact
artifacts_of project_id release [] = []
artifacts_of project_id release (f ∷ files) =
    let rest = artifacts_of project_id release files in
    let a = f.artifact in
    if eqb f.project_id project_id && eqb f.release release
    then (if is_mapish a then a else record a { body = [] }) ∷ rest
    else rest

-- loadArtifacts
pub load_artifacts : Bytes → Bytes → List ReleaseFile → List Artifact
load_artifacts project_id release files =
    if is_empty release then [] else artifacts_of project_id release files

-- a < b on strings
pub less : Bytes → Bytes → Bool
less s [] = false
less [] (b ∷ t) = true
less (a ∷ s) (b ∷ t) = ltb a b || (a == b && less s t)

-- the order of artifactSetKey; a release has one file for a name and a dist
pub comes_before : Artifact → Artifact → Bool
comes_before a b = if eqb a.name b.name then less a.dist b.dist else less a.name b.name

pub insert_sorted : Artifact → List Artifact → List Artifact
insert_sorted a [] = a ∷ []
insert_sorted a (b ∷ rest) =
    let behind = insert_sorted a rest in if comes_before b a then b ∷ behind else a ∷ b ∷ rest

pub sort_artifacts : List Artifact → List Artifact
sort_artifacts [] = []
sort_artifacts (a ∷ rest) = insert_sorted a (sort_artifacts rest)

-- what is hashed of the artifacts
pub key_rows : List Artifact → Bytes
key_rows [] = []
key_rows (a ∷ rest) = a.dist ++ (31 ∷ (a.name ++ (31 ∷ (a.sha256 ++ (30 ∷ key_rows rest)))))

-- artifactSetKey
pub artifact_set_key : (Bytes → Bytes) → Bytes → List Artifact → Bytes
artifact_set_key sha256 release arts =
    hex (sha256 (release ++ (0 ∷ key_rows (sort_artifacts arts))))

-- the test of imageDebugIDs on an image
pub is_image_of : Bytes → Image → Bool
is_image_of want img =
    let cf = normalize_path img.code_file in
    not (is_empty cf) && (eqb cf want || eqb (path_base cf) (path_base want))

pub ids_of : Bytes → List Image → List Bytes
ids_of want [] = []
ids_of want (img ∷ images) =
    let rest = ids_of want images in if is_image_of want img then img.debug_id ∷ rest else rest

-- imageDebugIDs
pub image_debug_ids : List Image → Bytes → Bytes → List Bytes
image_debug_ids images abs_path filename =
    let want = normalize_path (first_non_empty abs_path filename) in
    if is_empty want then [] else ids_of want images

-- what the loop over the frames carries; the keys of seenMissing are the paths of the list
pub record Progress : Type 0 where
  pub missing_maps : List MissingMap
  pub symbolicated : Bool

-- the view of a frame as it was received
pub received : RawFrame → FrameView
received f = record {
  lineno = f.lineno;
  colno = f.colno;
  abs_path = f.abs_path;
  filename = f.filename;
  in_app = elim f.in_app [ none ↦ false | some b ↦ b ];
  function = f.function;
  source = [];
  src_line = ℤ.pos 0;
  src_col = ℤ.pos 0;
  context = none;
  resolved = false;
}

-- a hint for a frame without a map
pub note_missing : EventView → RawFrame → Progress → Progress
note_missing payload f progress =
    if not (is_empty f.abs_path)
      && (not (any (λ m. eqb m.abs_path f.abs_path) progress.missing_maps)
          && ltb (length progress.missing_maps) missing_map_cap)
    then record progress {
      missing_maps =
          progress.missing_maps
          ++ record { abs_path = f.abs_path; release = payload.release; dist = payload.dist } ∷ [];
    }
    else progress

-- the view with the overlay of a frame that is resolved
pub overlaid : FrameView → FrameResult → FrameView
overlaid fv r = record fv {
  resolved = true;
  source = r.source;
  src_line = r.src_line;
  src_col = r.src_col;
  function = first_non_empty r.function fv.function;
  context = r.context;
}

-- the frame that SymbolicateFrame is given
pub frame_of : RawFrame → Symbolicate.Frame
frame_of f = record {
  lineno = f.lineno;
  colno = f.colno;
  abs_path = f.abs_path;
  filename = f.filename;
  function = f.function;
}
