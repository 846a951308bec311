-- ===== src/Ingest/Grouping/Fingerprints.antt =====
-- The fingerprints an SDK chooses and those computed by default are apart.
use bug_han.Prelude.{ℕ, ◌≢◌, sym, ap, List, [], ◌∷◌, Bytes, arith, ltb, Bool-cases, inl, inr}
use bug_han.Ingest.Grouping.{hex_digit, hex, default_hash, fingerprint_v1}

-- the second byte of a text
abbrev second : Bytes → ℕ
second [] = 0
second (a ∷ []) = 0
second (a ∷ b ∷ s) = b

hex_digit_lem : (n : ℕ) → hex_digit n ≢ b':'
unfolding hex_digit
hex_digit_lem n e = elim (Bool-cases (ltb n 10)) [ inl h ↦ ground arith | inr h ↦ ground arith ]

second-hex : (s : Bytes) → second (hex s) ≢ b':'
unfolding hex
second-hex [] e = omega arith
second-hex (b ∷ s) e = hex_digit_lem _ e

-- Whatever the digest function, an event that carries an SDK fingerprint is never in the group of an
-- event that carries none: their fingerprints differ.
pub fingerprint_v1-apart :
    (sha256 : Bytes → Bytes) (p : Bytes) (sdk : List Bytes) (title culprit title' culprit' : Bytes)
    → fingerprint_v1 sha256 (p ∷ sdk) title culprit ≢ fingerprint_v1 sha256 [] title' culprit'
unfolding fingerprint_v1 default_hash
fingerprint_v1-apart sha256 p sdk title culprit title' culprit' e = second-hex _ (sym (ap second e))
