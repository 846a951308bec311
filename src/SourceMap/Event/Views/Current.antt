-- ===== src/SourceMap/Event/Views/Current.antt =====
-- Which view is shown when an event is viewed again.
use bug_han.Prelude.{◌≡◌, Option, none, some, List, ◌∷◌, ◌++◌, Bytes, All}
use bug_han.Ingest.Grouping.{hex}
use bug_han.SourceMap.Resolve.{Artifact}
use bug_han.SourceMap.Event.{
  EventView, EventResult, ReleaseFile, load_artifacts, sort_artifacts, key_rows, artifact_set_key,
}
use bug_han.SourceMap.Event.Views.{Codecs, symbolicate_event}
use bug_han.SourceMap.Event.Views.Cached.{fresh_view}
use bug_han.SourceMap.Event.Views.Listing.{IsPlain, Row, listing}

module _ (lib : Codecs) where
  -- a result that is served from a column was stored in it for the key
  record IsStored (key stored : Bytes) (c : EventResult) : Type 0 where
    pub read : lib.decode_result stored ≡ some c
    pub keyed : c.cache_key ≡ key

module _ (lib : Codecs) (project_id : Bytes) (payload : EventView) where
  abbrev arts_of : List ReleaseFile → List Artifact
  arts_of files = load_artifacts project_id payload.release files

  abbrev key_of : List ReleaseFile → Bytes
  key_of files = artifact_set_key lib.sha256 payload.release (arts_of files)

  abbrev key_text : List ReleaseFile → Bytes
  key_text files = payload.release ++ (0 ∷ key_rows (sort_artifacts (arts_of files)))

  -- the dist, the name and the digest of every file of the event's release, in order
  abbrev pub files_of : List ReleaseFile → List Row
  files_of files = listing (arts_of files)

  -- texts without the separators, and a digest that does not collide on what is hashed of them
  pub record AreTold (files files' : List ReleaseFile) : Type 0 where
    pub plain : All IsPlain (arts_of files)
    pub plain' : All IsPlain (arts_of files')
    pub digest :
        hex (lib.sha256 (key_text files)) ≡ hex (lib.sha256 (key_text files'))
        → key_text files ≡ key_text files'

  -- the result of the payload with the files, and its column
  abbrev pub viewed : List ReleaseFile → EventResult × Bytes
  viewed files = (
    fresh_view lib project_id files payload,
    lib.encode_result (fresh_view lib project_id files payload),
  )

  -- the view with files', of the column that a view with the files leaves
  abbrev pub Again :
      Bytes → List ReleaseFile → List ReleaseFile → Option (EventResult × Bytes) → Type 0
  Again raw files files' none = ⊥
  Again raw files files' (some (r, column)) =
      (files_of files ≡ files_of files'
        → symbolicate_event lib project_id files' raw column ≡ some (r, column))
      × ((files_of files ≡ files_of files' → ⊥)
          → symbolicate_event lib project_id files' raw column ≡ some (viewed files'))
