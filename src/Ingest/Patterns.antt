-- ===== src/Ingest/Patterns.antt =====
-- The regular expressions of internal/ingest/grouping.go, as functions on bytes: each replaces what
-- its expression matches, leftmost first and greedily, or tells the parts that it captures.
use bug_han.Prelude.{
  ℕ, zero, suc, Bool, true, false, not, ◌&&◌, ◌||◌, Option, none, some, [], ◌∷◌, ◌++◌, Bytes, codes,
  leb, ◌==◌, if◌then◌else◌, is_empty, length, drop, has_prefix, trim_left, cut_byte, cut_last,
}

abbrev pub is_digit : ℕ → Bool
is_digit b = leb b'0' b && leb b b'9'

-- [0-9a-fA-F]
abbrev pub is_hex : ℕ → Bool
is_hex b = is_digit b || ((leb b'a' b && leb b b'f') || (leb b'A' b && leb b b'F'))

-- [a-zA-Z0-9]
abbrev pub is_alnum : ℕ → Bool
is_alnum b = is_digit b || ((leb b'a' b && leb b b'z') || (leb b'A' b && leb b b'Z'))

abbrev pub every : (ℕ → Bool) → Bytes → Bool
every p [] = true
every p (b ∷ s) = p b && every p s

-- uuidRe, an `h` for each hexadecimal digit
abbrev uuid_shape : Bytes
uuid_shape = codes "hhhhhhhh-hhhh-hhhh-hhhh-hhhhhhhhhhhh"

unfoldable pub fits : Bytes → Bytes → Bool
fits [] s = true
fits (p ∷ ps) [] = false
fits (p ∷ ps) (b ∷ s) = (if p == b'h' then is_hex b else b == p) && fits ps s

-- uuidRe.ReplaceAllString(s, "{uuid}"), with the bytes of a match that are still to be skipped
unfoldable pub replace_uuid : ℕ → Bytes → Bytes
replace_uuid n [] = []
replace_uuid (suc n) (b ∷ s) = replace_uuid n s
replace_uuid zero (b ∷ s) =
    let matched = codes "{uuid}" ++ replace_uuid 35 s in
    let next = b ∷ replace_uuid 0 s in if fits uuid_shape (b ∷ s) then matched else next

-- a run of hexadecimal digits that ends
unfoldable pub flush : Bytes → Bytes
flush run = if leb 8 (length run) then codes "{hex}" else run

-- hexRe.ReplaceAllString(s, "{hex}"), with the run before `s`
unfoldable pub replace_hex : Bytes → Bytes → Bytes
replace_hex run [] = flush run
replace_hex run (b ∷ s) =
    let inside = replace_hex (run ++ b ∷ []) s in
    let outside = flush run ++ (b ∷ replace_hex [] s) in if is_hex b then inside else outside

-- numRe.ReplaceAllString(s, "{num}"); the test is whether a run has begun
unfoldable pub replace_num : Bool → Bytes → Bytes
replace_num inside [] = []
replace_num inside (b ∷ s) =
    let run = replace_num true s in
    let rest = replace_num false s in
    if is_digit b then if inside then run else codes "{num}" ++ run else b ∷ rest

-- \s
abbrev is_blank : ℕ → Bool
is_blank b = b == 32 || (b == 9 || (b == 10 || (b == 12 || b == 13)))

-- the rest behind a text, where it is there
abbrev behind : Bytes → Bytes → Option Bytes
behind s p = if has_prefix s p then some (drop (length p) s) else none

-- defaultTokenRe at the start of a text
unfoldable pub is_default_token : Bytes → Bool
is_default_token s = elim (behind s (codes "{{")) [
  | none ↦ false
  | some t ↦ elim (behind (trim_left is_blank t) (codes "default")) [
    | none ↦ false
    | some u ↦ has_prefix (trim_left is_blank u) (codes "}}")
  ]
]

-- defaultTokenRe.MatchString
unfoldable pub has_default_token : Bytes → Bool
has_default_token [] = false
has_default_token (b ∷ s) = is_default_token (b ∷ s) || has_default_token s

-- `.+`: no newline
abbrev is_name : Bytes → Bool
is_name s = not (is_empty s) && every (λ b. not (b == b'\n')) s

-- dottedHashRe.FindStringSubmatch: what stands before the hash and the extension behind it
unfoldable pub dotted_hash : Bytes → Option (Bytes × Bytes)
dotted_hash s = elim (cut_last b'.' s) [
  | none ↦ none
  | some (l, ext) ↦ elim (cut_last b'.' l) [
    | none ↦ none
    | some (name, hash) ↦
        if is_name name
          && ((leb 6 (length hash) && every is_hex hash)
              && (not (is_empty ext) && every is_alnum ext))
        then some (name, ext)
        else none
  ]
]

-- `(\.[a-zA-Z0-9]+)?` up to the end: the hash before it, and the extension with its dot
unfoldable pub extension : Bytes → Option (Bytes × Bytes)
extension s = elim (cut_byte b'.' s) [
  | none ↦ some (s, [])
  | some (hash, ext) ↦
      if not (is_empty ext) && every is_alnum ext then some (hash, b'.' ∷ ext) else none
]

-- dashHashRe.FindStringSubmatch: what stands before the hash, and the extension or nothing
unfoldable pub dash_hash : Bytes → Option (Bytes × Bytes)
dash_hash s = elim (cut_last b'-' s) [
  | none ↦ none
  | some (name, r) ↦ elim (extension r) [
    | none ↦ none
    | some (hash, ext) ↦
        if is_name name && (leb 8 (length hash) && every is_hex hash)
        then some (name, ext)
        else none
  ]
]
