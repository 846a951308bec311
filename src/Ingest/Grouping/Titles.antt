-- ===== src/Ingest/Grouping/Titles.antt =====
-- What the titles of events look like: short, and without numbers.
use bug_han.Prelude.{
  ℕ, zero, suc, ◌≤◌, ◌≡◌, refl, Bool, true, false, [], ◌∷◌, Bytes, arith, leb, length, length-take,
  take, All, Bool-cases, inl, inr,
}
use bug_han.Ingest.Patterns.{is_digit, replace_num}
use bug_han.Ingest.Grouping.{parameterize, truncate_grouping, normalize_title}

-- text without a decimal digit
abbrev pub Undigited : Bytes → Type 0
Undigited = All (λ b. is_digit b ≡ false)

replace_num-Undigited : (inside : Bool) (s : Bytes) → Undigited (replace_num inside s)
unfolding replace_num
replace_num-Undigited inside [] = tt
replace_num-Undigited inside (b ∷ s) = elim (Bool-cases (is_digit b)) [
  | inr d ↦ rw d (d, replace_num-Undigited false s)
  | inl d ↦ elim (Bool-cases inside) [
    | inl i ↦ rw (d, i) (replace_num-Undigited true s)
    | inr i ↦ rw (d, i) (refl, (refl, (refl, (refl, (refl, replace_num-Undigited true s)))))
  ]
]

take-Undigited : (n : ℕ) (s : Bytes) → Undigited s → Undigited (take n s)
take-Undigited zero s h = tt
take-Undigited (suc n) [] h = tt
take-Undigited (suc n) (b ∷ s) (d, h) = (d, take-Undigited n s h)

-- what a title must be
pub record IsTitle (title : Bytes) : Type 0 where
  pub short : length title ≤ 256
  pub undigited : Undigited title

truncate_grouping-IsTitle : (s : Bytes) → Undigited s → IsTitle (truncate_grouping s 256)
unfolding truncate_grouping
truncate_grouping-IsTitle s h = elim (Bool-cases (leb (length s) 256)) [
  | inl e ↦ rw e (record { short = ground arith; undigited = h })
  | inr e ↦
      rw e (record { short = omega (arith, length-take 256 s); undigited = take-Undigited 256 s h })
]

-- Whatever the type and the value of an exception, its title has at most 256 bytes and no decimal
-- digit, so that numbers never split a group by its title.
pub normalize_title-IsTitle : (type value : Bytes) → IsTitle (normalize_title type value)
unfolding normalize_title parameterize
normalize_title-IsTitle type value = truncate_grouping-IsTitle _ (replace_num-Undigited false _)
