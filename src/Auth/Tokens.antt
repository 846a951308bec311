-- ===== src/Auth/Tokens.antt =====
-- internal/auth/tokens.go: tokens, their stored form and their shape, and slugs. The random source and
-- SHA-256 are parameters.
use bug_han.Prelude.{
  ℕ, ◌+◌, Bool, true, false, ◌&&◌, ◌||◌, Option, none, some, [], ◌∷◌, ◌++◌, Bytes, codes,
  if◌then◌else◌, leb, ◌==◌, is_empty, length, take, has_prefix, trim_prefix, trim_space, trim_left,
  trim_right, to_lower,
}
use bug_han.Ingest.Patterns.{every}
use bug_han.Ingest.Grouping.{hex}

-- NewToken, of 32 random bytes; `none` where the source fails
pub new_token : Option Bytes → Option Bytes
new_token none = none
new_token (some b) = some (hex b)

-- HashToken
unfoldable pub hash_token : (Bytes → Bytes) → Bytes → Bytes
hash_token sha256 token = hex (sha256 token)

-- the prefix of every API token
abbrev pub api_prefix : Bytes
api_prefix = codes "bghan_"

-- NewAPIToken, of 24 random bytes: the token and its display prefix
pub new_api_token : Option Bytes → Option (Bytes × Bytes)
new_api_token none = none
new_api_token (some b) =
    let full = api_prefix ++ hex b in some (full, take (length api_prefix + 6) full)

-- the test of isHex on a letter
abbrev pub is_lower_hex : ℕ → Bool
is_lower_hex c = (leb b'0' c && leb c b'9') || (leb b'a' c && leb c b'f')

-- ValidAPITokenShape
unfoldable pub valid_api_token_shape : Bytes → Bool
valid_api_token_shape token =
    let rest = trim_prefix token api_prefix in
    if has_prefix token api_prefix then length rest == 48 && every is_lower_hex rest else false

-- the cases of the switch of Slugify
abbrev pub is_slug_letter : ℕ → Bool
is_slug_letter r = (leb b'a' r && leb r b'z') || (leb b'0' r && leb r b'9')

abbrev pub is_separator : ℕ → Bool
is_separator r = r == b' ' || (r == b'-' || (r == b'_' || r == b'.'))

-- what the loop of Slugify writes, where `last_hyphen` is its flag
pub slug_loop : Bool → Bytes → Bytes
slug_loop last_hyphen [] = []
slug_loop last_hyphen (r ∷ s) =
    let letter = r ∷ slug_loop false s in
    let skipped = slug_loop true s in
    let dropped = slug_loop last_hyphen s in
    if is_slug_letter r
    then letter
    else if is_separator r
    then if last_hyphen then skipped else b'-' ∷ skipped
    else dropped

-- strings.Trim(s, "-")
pub trim_hyphens : Bytes → Bytes
trim_hyphens s = trim_right (λ b. b == b'-') (trim_left (λ b. b == b'-') s)

-- Slugify
pub slugify : Bytes → Bytes
slugify name =
    let out = trim_hyphens (slug_loop true (to_lower (trim_space name))) in
    if is_empty out then codes "item" else out
