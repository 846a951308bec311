-- ===== src/SourceMap/Paths/Clean.antt =====
-- cleanPath leaves no dot segment, and cleaning twice is cleaning once.
use bug_han.Prelude.{
  ◌≡◌, refl, ◌∙◌, sym, ap, Bool, true, false, ◌||◌, List, [], ◌∷◌, ◌++◌, append_assoc, append-nil,
  Bytes, codes, arith, if◌then◌else◌, eqb, is_empty, has_prefix, split, join, All, All-append,
  Lacks, split-Lacks, split-join, Bool-cases, inl, inr,
}
use bug_han.SourceMap.Paths.{drop_last, clean_step, clean_loop, clean_path}

-- a segment that names something: not empty, not a dot, not two dots, and with no slash
pub record IsName (s : Bytes) : Type 0 where
  pub given : is_empty s ≡ false
  pub no_dot : eqb s (codes ".") ≡ false
  pub no_dots : eqb s (codes "..") ≡ false
  pub no_slash : Lacks b'/' s

drop_last-IsName : (out : List Bytes) → All IsName out → All IsName (drop_last out)
unfolding drop_last
drop_last-IsName [] h = h
drop_last-IsName (p ∷ []) h = tt
drop_last-IsName (p ∷ q ∷ ps) (hp, h) = (hp, drop_last-IsName (q ∷ ps) h)

clean_step-IsName :
    (out : List Bytes) (s : Bytes) → Lacks b'/' s → All IsName out → All IsName (clean_step out s)
unfolding clean_step
clean_step-IsName out s hs h = elim (Bool-cases (is_empty s || eqb s (codes "."))) [
  | inl skip ↦ rw skip h
  | inr kept ↦ rw kept (elim (Bool-cases (eqb s (codes ".."))) [
    | inl up ↦ rw up (drop_last-IsName out h)
    | inr name ↦ rw name (
        All-append IsName out (s ∷ []) h (
          record { given = ground arith; no_dot = ground arith; no_dots = name; no_slash = hs },
          tt,
        ))
  ])
]

clean_loop-IsName :
    (segs out : List Bytes)
    → All (Lacks b'/') segs
    → All IsName out
    → All IsName (clean_loop segs out)
unfolding clean_loop
clean_loop-IsName [] out hs h = h
clean_loop-IsName (s ∷ segs) out (hp, hs) h =
    clean_loop-IsName segs (clean_step out s) hs (clean_step-IsName out s hp h)

-- names are kept as they are
clean_step_name : (out : List Bytes) (s : Bytes) → IsName s → clean_step out s ≡ out ++ s ∷ []
unfolding clean_step
clean_step_name out s h = ground arith

clean_loop_names : (segs out : List Bytes) → All IsName segs → clean_loop segs out ≡ out ++ segs
unfolding clean_loop
clean_loop_names [] out h = sym (append-nil out)
clean_loop_names (s ∷ segs) out (hs, h) =
    rw (clean_step_name out s hs)
      (clean_loop_names segs (out ++ s ∷ []) h ∙ append_assoc out (s ∷ []) segs)

-- the segments that cleanPath keeps
pub segments : Bytes → List Bytes
segments p = clean_loop (split p b'/') []

pub segments-IsName : (p : Bytes) → All IsName (segments p)
unfolding segments
segments-IsName p = clean_loop-IsName (split p b'/') [] (split-Lacks p b'/') tt

names-Lacks : (out : List Bytes) → All IsName out → All (Lacks b'/') out
names-Lacks [] h = tt
names-Lacks (s ∷ out) (hs, h) = (hs.no_slash, names-Lacks out h)

segments-join : (out : List Bytes) → All IsName out → segments (join out b'/') ≡ out
unfolding segments
segments-join [] h = unfold clean_loop clean_step in refl
segments-join (s ∷ out) h =
    rw (split-join s out b'/' (names-Lacks (s ∷ out) h)) (clean_loop_names (s ∷ out) [] h)

segments_slash : (s : Bytes) → segments (b'/' ∷ s) ≡ segments s
unfolding segments clean_loop clean_step
segments_slash s = refl

join_no_slash : (out : List Bytes) → All IsName out → has_prefix (join out b'/') (codes "/") ≡ false
join_no_slash [] h = refl
join_no_slash ([] ∷ []) (hs, h) = absurd (ground (arith, hs.given))
join_no_slash ([] ∷ t ∷ out) (hs, h) = absurd (ground (arith, hs.given))
join_no_slash ((b ∷ s) ∷ []) (hs, h) = ground (arith, hs.no_slash)
join_no_slash ((b ∷ s) ∷ t ∷ out) (hs, h) = ground (arith, hs.no_slash)

abbrev cleaned : Bool → List Bytes → Bytes
cleaned rooted out = if rooted then b'/' ∷ join out b'/' else join out b'/'

clean_path-cleaned : (p : Bytes) → clean_path p ≡ cleaned (has_prefix p (codes "/")) (segments p)
unfolding clean_path segments
clean_path-cleaned p = refl

clean_path_again :
    (rooted : Bool) (out : List Bytes)
    → All IsName out
    → clean_path (cleaned rooted out) ≡ cleaned rooted out
clean_path_again true out h =
    clean_path-cleaned (b'/' ∷ join out b'/')
    ∙ ap (cleaned true) (segments_slash (join out b'/') ∙ segments-join out h)
clean_path_again false out h =
    clean_path-cleaned (join out b'/') ∙ rw (join_no_slash out h, segments-join out h) refl

-- A cleaned path is the join of segments that name something (none is empty, a dot, two dots, or
-- holds a slash), behind a slash exactly where the given path began with one; and cleaning it again
-- changes nothing.
pub clean_path_lem :
    (p : Bytes)
    → (out : List Bytes) × All IsName out
      × (clean_path p ≡ (if has_prefix p (codes "/") then b'/' ∷ join out b'/' else join out b'/'))
      × (clean_path (clean_path p) ≡ clean_path p)
clean_path_lem p = (
  segments p,
  segments-IsName p,
  clean_path-cleaned p,
  rw (clean_path-cleaned p)
      (clean_path_again (has_prefix p (codes "/")) (segments p) (segments-IsName p)),
)
