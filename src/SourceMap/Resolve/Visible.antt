-- ===== src/SourceMap/Resolve/Visible.antt =====
-- What ResolveMap may serve: an artifact of the release that the event's dist may see.
use mathlib.Core.List.{Memᴰ}
use bug_han.Prelude.{
  ◌≡◌, refl, subst, ◌⊎◌, inl, inr, Bool, true, false, not, ◌&&◌, Option, none, some, List, [], ◌∷◌,
  Bytes, codes, arith, if◌then◌else◌, eqb, eqb_sound, is_empty, has_prefix, to_lower, All,
  All-append, Bool-cases,
}
use bug_han.SourceMap.Map.{Map}
use bug_han.SourceMap.Paths.{path_base}
use bug_han.SourceMap.Resolve.{
  Artifact, Index, Names, Libraries, exact_of, bare_of, candidates, lookup, put, add_name,
  add_debug, by_name, by_debug, find_art, parse_map_artifact, parse_inline_map, with_map, or_else,
  by_sourcemap_url, by_image_ids, by_artifact, resolve_map,
}

-- an artifact that the event may see: uploaded for the release, without a dist or with the event's
pub record IsVisible (arts : List Artifact) (dist : Bytes) (a : Artifact) : Type 0 where
  pub uploaded : Memᴰ a arts
  pub of_dist : (a.dist ≡ []) ⊎ (a.dist ≡ dist)

IsVisible-later :
    (b : Artifact) (arts : List Artifact) (dist : Bytes) (sel : List Artifact)
    → All (IsVisible arts dist) sel
    → All (IsVisible (b ∷ arts) dist) sel
IsVisible-later b arts dist [] h = tt
IsVisible-later b arts dist (a ∷ sel) (ha, h) = (
  record { uploaded = Memᴰ.tail ha.uploaded; of_dist = ha.of_dist },
  IsVisible-later b arts dist sel h,
)

empty_nil : (s : Bytes) → is_empty s ≡ true → s ≡ []
empty_nil [] h = refl
empty_nil (b ∷ s) h = absurd (ground arith)

exact_of-IsVisible :
    (dist : Bytes) (arts : List Artifact) → All (IsVisible arts dist) (exact_of dist arts)
unfolding exact_of
exact_of-IsVisible dist [] = tt
exact_of-IsVisible dist (a ∷ arts) =
    let rest = IsVisible-later a arts dist (exact_of dist arts) (exact_of-IsVisible dist arts) in
    elim (Bool-cases (not (is_empty a.dist) && (not (is_empty dist) && eqb a.dist dist))) [
      | inr other ↦ rw other rest
      | inl same ↦ rw same (
        record { uploaded = Memᴰ.head refl; of_dist = inr (eqb_sound a.dist dist (ground arith)) },
        rest,
      )
    ]

bare_of-IsVisible : (dist : Bytes) (arts : List Artifact) → All (IsVisible arts dist) (bare_of arts)
unfolding bare_of
bare_of-IsVisible dist [] = tt
bare_of-IsVisible dist (a ∷ arts) =
    let rest = IsVisible-later a arts dist (bare_of arts) (bare_of-IsVisible dist arts) in
    elim (Bool-cases (is_empty a.dist)) [
      | inr other ↦ rw other rest
      | inl bare ↦
          rw bare
            (record { uploaded = Memᴰ.head refl; of_dist = inl (empty_nil a.dist bare) }, rest)
    ]

candidates-IsVisible : (ix : Index) → All (IsVisible ix.artifacts ix.dist) (candidates ix)
unfolding candidates
candidates-IsVisible ix =
    All-append _ (exact_of ix.dist ix.artifacts) (bare_of ix.artifacts)
      (exact_of-IsVisible ix.dist ix.artifacts) (bare_of-IsVisible ix.dist ix.artifacts)

-- every artifact of a table of names satisfies a predicate, and what is found does
module _ (P : Artifact → Type 0) where
  abbrev InTable : Names → Type 0
  InTable m = All (λ e. P e.1) m

  abbrev IfSome : Option Artifact → Type 0
  IfSome none = Unit {0}
  IfSome (some a) = P a

  abbrev IfPair : Option (Artifact × Map) → Type 0
  IfPair none = Unit {0}
  IfPair (some (a, m)) = P a

  lookup-IfSome : (k : Bytes) (m : Names) → InTable m → IfSome (lookup k m)
  unfolding lookup
  lookup-IfSome k [] h = tt
  lookup-IfSome k ((j, a) ∷ m) (ha, h) = elim (Bool-cases (eqb j k)) [
    | inl e ↦ rw e ha
    | inr e ↦ rw e (lookup-IfSome k m h)
  ]

  found_or :
      (o next : Option Artifact)
      → IfSome o
      → IfSome next
      → IfSome (elim o [ some a ↦ some a | none ↦ next ])
  found_or none next ho h = h
  found_or (some a) next ho h = ho

  find_art-IfSome : (m : Names) (p : Bytes) → InTable m → IfSome (find_art m p)
  unfolding find_art
  find_art-IfSome m p h =
      found_or (lookup p m) (lookup (path_base p) m) (lookup-IfSome p m h)
        (lookup-IfSome (path_base p) m h)

  add_name-InTable : (m : Names) (a : Artifact) → P a → InTable m → InTable (add_name m a)
  unfolding add_name put
  add_name-InTable m a ha h =
      elim (Bool-cases (not (is_empty (path_base a.name)) && not (eqb (path_base a.name) a.name))) [
        | inl e ↦ rw e (ha, (ha, (ha, h)))
        | inr e ↦ rw e (ha, (ha, h))
      ]

  add_debug-InTable : (m : Names) (a : Artifact) → P a → InTable m → InTable (add_debug m a)
  unfolding add_debug put
  add_debug-InTable m a ha h = elim (Bool-cases (is_empty a.debug_id)) [
    | inl e ↦ rw e h
    | inr e ↦ rw e (ha, h)
  ]

  by_name-InTable :
      (arts : List Artifact) (m : Names) → All P arts → InTable m → InTable (by_name arts m)
  unfolding by_name
  by_name-InTable [] m ha h = h
  by_name-InTable (a ∷ arts) m (hp, ha) h =
      by_name-InTable arts (add_name m a) ha (add_name-InTable m a hp h)

  by_debug-InTable :
      (arts : List Artifact) (m : Names) → All P arts → InTable m → InTable (by_debug arts m)
  unfolding by_debug
  by_debug-InTable [] m ha h = h
  by_debug-InTable (a ∷ arts) m (hp, ha) h =
      by_debug-InTable arts (add_debug m a) ha (add_debug-InTable m a hp h)

  module _ (lib : Libraries) where
    paired :
        (a : Artifact) (o : Option Map)
        → P a
        → IfPair (elim o [ none ↦ none | some m ↦ some (a, m) ])
    paired a none h = tt
    paired a (some m) h = h

    with_map-IfPair : (o : Option Artifact) → IfSome o → IfPair (with_map lib o)
    unfolding with_map
    with_map-IfPair none h = tt
    with_map-IfPair (some a) h = paired a (parse_map_artifact lib a) h

    or_else-IfPair :
        (o next : Option (Artifact × Map)) → IfPair o → IfPair next → IfPair (or_else lib o next)
    unfolding or_else
    or_else-IfPair none next ho h = h
    or_else-IfPair (some (a, m)) next ho h = ho

    by_sourcemap_url-IfPair :
        (names : Names) (a : Artifact) (p : Bytes)
        → InTable names
        → P a
        → IfPair (by_sourcemap_url lib names a p)
    unfolding by_sourcemap_url
    by_sourcemap_url-IfPair names a p h ha =
        elim (Bool-cases (has_prefix (to_lower a.sourcemap_url) (codes "data:"))) [
          | inr e ↦ rw e (with_map-IfPair _ (find_art-IfSome names _ h))
          | inl e ↦ rw e (paired a (parse_inline_map lib a.sourcemap_url) ha)
        ]

    by_image_ids-IfPair :
        (debug : Names) (ids : List Bytes) → InTable debug → IfPair (by_image_ids lib debug ids)
    unfolding by_image_ids
    by_image_ids-IfPair debug [] h = tt
    by_image_ids-IfPair debug (id ∷ ids) h =
        or_else-IfPair _ _ (with_map-IfPair _ (lookup-IfSome (to_lower id) debug h))
          (by_image_ids-IfPair debug ids h)

    IfPair-if : (c : Bool) (o : Option (Artifact × Map)) → IfPair o → IfPair (if c then none else o)
    IfPair-if true o h = tt
    IfPair-if false o h = h

    by_artifact-IfPair :
        (names debug : Names) (p : Bytes) (o : Option Artifact)
        → InTable names
        → InTable debug
        → IfSome o
        → IfPair (by_artifact lib names debug p o)
    unfolding by_artifact
    by_artifact-IfPair names debug p none hn hd h = tt
    by_artifact-IfPair names debug p (some a) hn hd h =
        or_else-IfPair _ _ (IfPair-if _ _ (with_map-IfPair _ (lookup-IfSome a.debug_id debug hd)))
          (IfPair-if _ _ (by_sourcemap_url-IfPair names a p hn h))

    resolve_map-IfPair :
        (ix : Index) (p : Bytes) (ids : List Bytes)
        → All P (candidates ix)
        → IfPair (resolve_map lib ix p ids)
    unfolding resolve_map
    resolve_map-IfPair ix p ids h =
        let names = by_name-InTable (candidates ix) [] h tt in
        let debug = by_debug-InTable (candidates ix) [] h tt in
        or_else-IfPair _ _ (by_image_ids-IfPair _ ids debug) (
          or_else-IfPair _ _ (by_artifact-IfPair _ _ _ _ names debug (find_art-IfSome _ _ names))
            (with_map-IfPair _ (find_art-IfSome _ _ names)))

-- The artifact that ResolveMap serves a frame from was uploaded for the release, and it has no dist or
-- the event's: another build's map is never served.
pub resolve_map-IsVisible :
    (lib : Libraries) (ix : Index) (p : Bytes) (ids : List Bytes) (a : Artifact) (m : Map)
    → resolve_map lib ix p ids ≡ some (a, m)
    → IsVisible ix.artifacts ix.dist a
resolve_map-IsVisible lib ix p ids a m h =
    subst (IfPair (IsVisible ix.artifacts ix.dist)) h
      (resolve_map-IfPair (IsVisible ix.artifacts ix.dist) lib ix p ids (candidates-IsVisible ix))
