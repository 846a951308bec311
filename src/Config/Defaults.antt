-- ===== src/Config/Defaults.antt =====
-- What a loaded configuration always has.
use bug_han.Prelude.{
  ℕ, ◌≡◌, refl, false, Option, [], ◌∷◌, Bytes, codes, if◌then◌else◌, is_empty, trim_right,
  Bool-cases, inl, inr,
}
use bug_han.Prelude.Int.{ℤ}
use bug_han.Config.{or_default, is_slash, get_env, load}

-- the text does not end in a slash
abbrev pub EndsClear : Bytes → Type 0
EndsClear [] = Unit {0}
EndsClear (b ∷ []) = is_slash b ≡ false
EndsClear (b ∷ c ∷ s) = EndsClear (c ∷ s)

keep :
    (b : ℕ) (t : Bytes)
    → EndsClear t
    → EndsClear (elim t [ [] ↦ if is_slash b then [] else b ∷ [] | c ∷ u ↦ b ∷ c ∷ u ])
keep b [] h = elim (Bool-cases (is_slash b)) [ inl e ↦ rw e tt | inr e ↦ rw e e ]
keep b (c ∷ u) h = h

trim_right-EndsClear : (s : Bytes) → EndsClear (trim_right is_slash s)
trim_right-EndsClear [] = tt
trim_right-EndsClear (b ∷ s) = keep b (trim_right is_slash s) (trim_right-EndsClear s)

or_default_given : (v def : Bytes) → is_empty def ≡ false → is_empty (or_default v def) ≡ false
unfolding or_default
or_default_given [] def h = h
or_default_given (b ∷ v) def h = refl

-- Whatever the environment holds, a loaded configuration has a secret and a database, and its public
-- URL does not end in a slash, so that a path can be put behind it.
pub load_lem :
    (env : Bytes → Bytes) (atoi : Bytes → Option ℤ)
    → (is_empty (load env atoi).secret_key ≡ false)
      × (is_empty (load env atoi).database_url ≡ false)
      × EndsClear (load env atoi).public_url
unfolding load
load_lem env atoi = (
  or_default_given (env _) _ refl,
  or_default_given (env _) _ refl,
  trim_right-EndsClear (get_env env atoi (codes "BUGHAN_URL") (codes "http://localhost:8000")),
)
