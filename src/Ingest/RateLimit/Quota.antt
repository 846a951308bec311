-- ===== src/Ingest/RateLimit/Quota.antt =====
-- A project passes as often in a window as its limit says.
use bug_han.Prelude.{
  ℕ, ◌+◌, ◌-◌, ◌<◌, ◌≡◌, refl, ◌∙◌, ap, Bool, true, false, List, [], ◌∷◌, Bytes, arith,
  if◌then◌else◌, leb, ◌==◌, ==_refl, eqb_refl, All, Bool-cases, inl, inr,
}
use bug_han.Prelude.Int.{pos}
use bug_han.Ingest.RateLimit.{Counter, window_of, is_row, hit, check}

-- the count of a project in a window, 0 without a row
unfoldable pub count_of : Bytes → ℕ → List Counter → ℕ
count_of p w [] = 0
count_of p w (c ∷ rows) = if is_row p w c then c.count else count_of p w rows

hit-count_of :
    (p : Bytes) (w : ℕ) (rows : List Counter)
    → ((hit p w rows).0 ≡ count_of p w rows + 1)
      × (count_of p w (hit p w rows).1 ≡ count_of p w rows + 1)
unfolding hit count_of
hit-count_of p w [] = (omega arith, rw (eqb_refl p, ==_refl w) (omega arith))
hit-count_of p w (c ∷ rows) = elim (Bool-cases (is_row p w c)) [
  | inl e ↦ rw (e, e) (refl, refl)
  | inr e ↦ rw (e, e) (hit-count_of p w rows)
]

-- a request: whether the database answers, and when it comes
abbrev pub Call : Type 0
Call = Bool × ℕ

-- the requests that pass, of some
pub passed : ℕ → Bytes → List Call → List Counter → ℕ
passed limit p [] rows = 0
passed limit p ((answers, now) ∷ calls) rows =
    (if (check answers (pos limit) now p rows).0.allowed then 1 else 0)
    + passed limit p calls (check answers (pos limit) now p rows).1

-- how often the database answers, and how often it does not
abbrev pub counted : List Call → ℕ
counted [] = 0
counted ((answers, now) ∷ calls) = (if answers then 1 else 0) + counted calls

abbrev pub uncounted : List Call → ℕ
uncounted [] = 0
uncounted ((answers, now) ∷ calls) = (if answers then 0 else 1) + uncounted calls

-- the first `limit` of `n` requests after `done` others
abbrev first_of : ℕ → ℕ → ℕ → ℕ
first_of limit done n = if leb (done + n) limit then n else limit - done

passed-from :
    (limit : ℕ) (p : Bytes) (w : ℕ) (calls : List Call) (rows : List Counter) (done : ℕ)
    → 0 < limit
    → All (λ c. window_of c.1 ≡ w) calls
    → count_of p w rows ≡ done
    → passed limit p calls rows ≡ first_of limit done (counted calls) + uncounted calls
unfolding passed check
passed-from limit p w [] rows done some_limit same e = ground arith
passed-from limit p w ((false, now) ∷ calls) rows done some_limit (is_w, same) e =
    let on : (limit == 0) ≡ false = ground arith in
    let rest = passed-from limit p w calls rows done some_limit same e in
    rw on (ground (arith, rest))
passed-from limit p w ((true, now) ∷ calls) rows done some_limit (is_w, same) e =
    let on : (limit == 0) ≡ false = ground arith in
    let (returned, after) = hit-count_of p w rows in
    let rest =
      passed-from limit p w calls (hit p w rows).1 (done + 1) some_limit same
        (after ∙ ap (λ n. n + 1) e) in
    rw (on, is_w, returned, e) (ground (arith, rest))

-- Of the requests of a project within one window, of which none was counted before, those that the
-- database does not answer for all pass; of the others as many pass as the limit says and no more: all
-- of them, or the limit where they are more than it.
pub passed-limit :
    (limit : ℕ) (p : Bytes) (w : ℕ) (calls : List Call) (rows : List Counter)
    → 0 < limit
    → All (λ c. window_of c.1 ≡ w) calls
    → count_of p w rows ≡ 0
    → passed limit p calls rows
      ≡ (if leb (counted calls) limit then counted calls else limit) + uncounted calls
passed-limit limit p w calls rows some_limit same none_yet =
    passed-from limit p w calls rows 0 some_limit same none_yet ∙ ground arith
