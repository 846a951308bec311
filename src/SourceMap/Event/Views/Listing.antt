-- ===== src/SourceMap/Event/Views/Listing.antt =====
-- What the cache key tells of the files of a release.
use bug_han.Prelude.{
  ℕ, ==_refl, ◌≡◌, refl, sym, ap, ap₂, List, [], ◌∷◌, ◌++◌, map, Bytes, drop, Lacks, All,
  Bool-cases, inl, inr,
}
use bug_han.SourceMap.Resolve.{Artifact}
use bug_han.SourceMap.Event.{comes_before, insert_sorted, sort_artifacts, key_rows}

-- what is told apart of a file
pub record Row : Type 0 where
  pub dist : Bytes
  pub name : Bytes
  pub sha256 : Bytes

abbrev pub told_of : Artifact → Row
told_of a = record { dist = a.dist; name = a.name; sha256 = a.sha256 }

-- texts without the separators
pub record IsPlain (a : Artifact) : Type 0 where
  pub dist : Lacks 31 a.dist
  pub name : Lacks 31 a.name
  pub sha256 : Lacks 30 a.sha256

abbrev first : Bytes → ℕ
first [] = 0
first (b ∷ s) = b

abbrev head_of : Row → List Row → Row
head_of d [] = d
head_of d (r ∷ rows) = r

abbrev tail_of : List Row → List Row
tail_of [] = []
tail_of (r ∷ rows) = rows

-- a text up to a separator is that of another with the same beginning
until-apart :
    (sep : ℕ) (p q s t : Bytes)
    → Lacks sep p
    → Lacks sep q
    → p ++ sep ∷ s ≡ q ++ sep ∷ t
    → (p ≡ q) × (s ≡ t)
until-apart sep [] [] s t hp hq e = (refl, ap (drop 1) e)
until-apart sep [] (c ∷ q) s t hp (hc, hq) e = absurd (cc (hc, e, ==_refl sep))
until-apart sep (b ∷ p) [] s t (hb, hp) hq e = absurd (cc (hb, e, ==_refl sep))
until-apart sep (b ∷ p) (c ∷ q) s t (hb, hp) (hc, hq) e =
    let (same_p, same_s) = until-apart sep p q s t hp hq (ap (drop 1) e) in
    (ap₂ (λ x xs. x ∷ xs) (ap first e) same_p, same_s)

some_text : (sep : ℕ) (p s : Bytes) → p ++ sep ∷ s ≡ [] → ⊥
some_text sep [] s e = absurd (cc (e))
some_text sep (b ∷ p) s e = absurd (cc (e))

key_rows-apart :
    (arts arts' : List Artifact)
    → All IsPlain arts
    → All IsPlain arts'
    → key_rows arts ≡ key_rows arts'
    → map told_of arts ≡ map told_of arts'
unfolding key_rows
key_rows-apart [] [] h h' e = refl
key_rows-apart [] (b ∷ arts') h h' e = absurd (some_text 31 b.dist _ (sym e))
key_rows-apart (a ∷ arts) [] h h' e = absurd (some_text 31 a.dist _ e)
key_rows-apart (a ∷ arts) (b ∷ arts') (ha, h) (hb, h') e =
    let (dist, e1) = until-apart 31 a.dist b.dist _ _ ha.dist hb.dist e in
    let (name, e2) = until-apart 31 a.name b.name _ _ ha.name hb.name e1 in
    let (sha256, e3) = until-apart 30 a.sha256 b.sha256 _ _ ha.sha256 hb.sha256 e2 in
    let same : told_of a ≡ told_of b = cc (dist, name, sha256) in
    ap₂ (λ x xs. x ∷ xs) same (key_rows-apart arts arts' h h' e3)

pub key_rows-same :
    (arts arts' : List Artifact)
    → map told_of arts ≡ map told_of arts'
    → key_rows arts ≡ key_rows arts'
unfolding key_rows
key_rows-same [] [] e = refl
key_rows-same [] (b ∷ arts') e = absurd (cc (e))
key_rows-same (a ∷ arts) [] e = absurd (cc (e))
key_rows-same (a ∷ arts) (b ∷ arts') e =
    let rest = key_rows-same arts arts' (ap tail_of e) in
    let same : told_of a ≡ told_of b = ap (head_of (told_of a)) e in
    let dist : a.dist ≡ b.dist = ap (λ r. r.dist) same in
    let name : a.name ≡ b.name = ap (λ r. r.name) same in
    let sha256 : a.sha256 ≡ b.sha256 = ap (λ r. r.sha256) same in rw (dist, name, sha256, rest) refl

insert_sorted-AllPlain :
    (a : Artifact) (arts : List Artifact)
    → IsPlain a
    → All IsPlain arts
    → All IsPlain (insert_sorted a arts)
unfolding insert_sorted
insert_sorted-AllPlain a [] p h = (p, tt)
insert_sorted-AllPlain a (b ∷ arts) p (q, h) = elim (Bool-cases (comes_before b a)) [
  | inl y ↦ rw y (q, insert_sorted-AllPlain a arts p h)
  | inr n ↦ rw n (p, (q, h))
]

sort_artifacts-AllPlain :
    (arts : List Artifact) → All IsPlain arts → All IsPlain (sort_artifacts arts)
unfolding sort_artifacts
sort_artifacts-AllPlain [] h = tt
sort_artifacts-AllPlain (a ∷ arts) (p, h) =
    insert_sorted-AllPlain a (sort_artifacts arts) p (sort_artifacts-AllPlain arts h)

-- the files in the order of the key
abbrev pub listing : List Artifact → List Row
listing arts = map told_of (sort_artifacts arts)

pub listing-apart :
    (arts arts' : List Artifact)
    → All IsPlain arts
    → All IsPlain arts'
    → key_rows (sort_artifacts arts) ≡ key_rows (sort_artifacts arts')
    → listing arts ≡ listing arts'
listing-apart arts arts' h h' e =
    key_rows-apart (sort_artifacts arts) (sort_artifacts arts') (sort_artifacts-AllPlain arts h)
      (sort_artifacts-AllPlain arts' h') e
