-- ===== src/Ingest/Grouping.antt =====
-- internal/ingest/grouping.go: the title, the culprit and the fingerprint of an event. The JSON
-- decoder and SHA-256 are parameters; the regular expressions are Ingest.Patterns.
pub mod Titles
pub mod Frames
pub mod Fingerprints
mod Tests
use bug_han.Prelude.{
  ℕ, zero, suc, ◌+◌, ◌/◌, ◌%◌, Bool, true, false, not, ◌&&◌, ◌||◌, Option, none, some, List, [],
  ◌∷◌, ◌++◌, map, Bytes, codes, ltb, leb, ◌==◌, if◌then◌else◌, eqb, is_empty, length, take,
  get_elem?, has_prefix, contains, split, join, trim_space, take_until,
}
use bug_han.Ingest.Patterns.{
  is_hex, every, replace_uuid, replace_hex, replace_num, has_default_token, dotted_hash, dash_hash,
}

-- sentryFrame
pub record Frame : Type 0 where
  pub filename : Bytes
  pub abs_path : Bytes
  pub function : Bytes
  pub module_name : Bytes
  pub in_app : Option Bool

-- sentryException, with the frames of its stack trace
pub record Exception : Type 0 where
  pub type : Bytes
  pub value : Bytes
  pub frames : List Frame

-- the payload that normalizeEvent decodes
pub record RawEvent : Type 0 where
  pub message : Bytes
  pub exceptions : List Exception
  pub fingerprint : List Bytes

-- normalizedEvent
pub record NormalizedEvent : Type 0 where
  pub title : Bytes
  pub culprit : Bytes
  pub fingerprint : Bytes

-- groupingVersion
abbrev pub grouping_version : ℕ
grouping_version = 1

-- inApp
pub is_in_app : Frame → Bool
is_in_app f = elim f.in_app [ none ↦ false | some b ↦ b ]

-- isAnonymousFrame
pub is_anonymous_frame : Frame → Bool
is_anonymous_frame f =
    is_empty f.function
    || (eqb f.function (codes "?")
        || (eqb f.function (codes "<anonymous>") || eqb f.function (codes "anonymous")))

-- isWebpackFrame
pub is_webpack_frame : Frame → Bool
is_webpack_frame f =
    has_prefix f.module_name (codes "webpack")
    || (contains f.filename (codes "webpack") || contains f.abs_path (codes "webpack"))

-- stripQueryFragment
pub strip_query_fragment : Bytes → Bytes
strip_query_fragment s = take_until (λ b. b == b'?' || b == b'#') s

-- isAllHex
pub is_all_hex : Bytes → Bool
is_all_hex s = every is_hex s && ltb 0 (length s)

-- the body of the loop of normalizeBundlePath
pub normalize_segment : Bytes → Bytes
normalize_segment seg =
    let bare = if leb 8 (length seg) && is_all_hex seg then codes "{hash}" else seg in
    elim (dotted_hash seg) [
      | some (name, ext) ↦ name ++ (codes ".{hash}." ++ ext)
      | none ↦ elim (dash_hash seg) [
        | some (name, ext) ↦ name ++ (codes "-{hash}" ++ ext)
        | none ↦ bare
      ]
    ]

-- normalizeBundlePath
pub normalize_bundle_path : Bytes → Bytes
normalize_bundle_path path = join (map normalize_segment (split path b'/')) b'/'

-- the tests that skip a frame in the loop of normalizedCulprit
pub is_eligible : Frame → Bool
is_eligible f =
    if not (is_in_app f) then false else not (is_anonymous_frame f || is_webpack_frame f)

-- `for i := len(frames) - 1; i >= 0; i--`: the frames from `n - 1` down
pub choose_frame : List Frame → ℕ → Option Frame
choose_frame frames zero = none
choose_frame frames (suc i) =
    let rest = choose_frame frames i in
    elim (get_elem? frames i) [ none ↦ rest | some f ↦ if is_eligible f then some f else rest ]

-- "path in function"
pub render_frame : Frame → Bytes
render_frame f =
    let path =
      normalize_bundle_path
        (strip_query_fragment (if is_empty f.filename then f.abs_path else f.filename)) in
    if is_empty f.function then path else path ++ (codes " in " ++ f.function)

-- normalizedCulprit
pub normalized_culprit : List Frame → Bytes
normalized_culprit frames = elim (choose_frame frames (length frames)) [
  | none ↦ []
  | some f ↦ render_frame f
]

-- parameterize
pub parameterize : Bytes → Bytes
parameterize s = replace_num false (replace_hex [] (replace_uuid 0 s))

-- truncateGrouping
pub truncate_grouping : Bytes → ℕ → Bytes
truncate_grouping s n = if leb (length s) n then s else take n s

-- normalizeTitle
pub normalize_title : Bytes → Bytes → Bytes
normalize_title type value =
    truncate_grouping
      (parameterize (if is_empty type then value else type ++ (codes ": " ++ value))) 256

-- hex.EncodeToString
unfoldable pub hex_digit : ℕ → ℕ
hex_digit n = if ltb n 10 then n + 48 else n + 87

unfoldable pub hex : Bytes → Bytes
hex [] = []
hex (b ∷ s) = hex_digit (b / 16) ∷ hex_digit (b % 16) ∷ hex s

-- the newest exception, the last one
pub newest : Exception → List Exception → Exception
newest e [] = e
newest e (f ∷ rest) = newest f rest

module _ (sha256 : Bytes → Bytes) where
  -- defaultHash
  pub default_hash : Bytes → Bytes → Bytes
  default_hash title culprit =
      hex (sha256 (codes "grouping_v1" ++ (0 ∷ (codes "error" ++ (0 ∷ (title ++ (0 ∷ culprit)))))))

  -- an entry of the SDK fingerprint, with the default token expanded
  pub expand : Bytes → Bytes → Bytes
  expand def p = let q = trim_space p in if has_default_token q then def else q

  -- fingerprintV1
  pub fingerprint_v1 : List Bytes → Bytes → Bytes → Bytes
  fingerprint_v1 [] title culprit = default_hash title culprit
  fingerprint_v1 (p ∷ sdk) title culprit =
      codes "f:" ++ join (map (expand (default_hash title culprit)) (p ∷ sdk)) 31

  -- the title and the culprit
  pub title_of : RawEvent → Bytes
  title_of raw = elim raw.exceptions [
    | [] ↦ normalize_title [] raw.message
    | e ∷ rest ↦ normalize_title (newest e rest).type (newest e rest).value
  ]

  pub culprit_of : RawEvent → Bytes
  culprit_of raw = elim raw.exceptions [
    | [] ↦ []
    | e ∷ rest ↦ normalized_culprit (newest e rest).frames
  ]

  -- normalizeEvent, of what the decoder makes of the payload
  pub normalize_event : RawEvent → NormalizedEvent
  normalize_event raw = record {
    title = title_of raw;
    culprit = culprit_of raw;
    fingerprint = fingerprint_v1 raw.fingerprint (title_of raw) (culprit_of raw);
  }
