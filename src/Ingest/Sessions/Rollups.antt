-- ===== src/Ingest/Sessions/Rollups.antt =====
-- The counters of a rollup are balanced.
use bug_han.Prelude.{
  ◌+◌, ◌≤◌, Bool, ◌&&◌, List, [], ◌∷◌, Bytes, codes, arith, eqb, eqb_sound, All, Bool-cases, inl,
  inr,
}
use bug_han.Prelude.Int.{ℤ, pos, pos_part, neg_part, ◌+ℤ◌, +ℤ_parts, ltb_ℤ}
use bug_han.Hll.{Sketch}
use bug_han.Ingest.Sessions.{
  Payload, Session, Store, Rollup, RollupKey, Result, ok, err, Libraries, same_key, one_if, counted,
  added, put_rollup, session_of, fold_session, store_session,
}

-- the counters of outcomes together are at most the total, a + b + c + d ≤ t
abbrev pub Balance : ℤ → ℤ → ℤ → ℤ → ℤ → Type 0
Balance a b c d t =
    pos_part a + pos_part b + pos_part c + pos_part d + neg_part t
    ≤ pos_part t + neg_part a + neg_part b + neg_part c + neg_part d

-- no session is counted under two outcomes
pub record IsBalanced (r : Rollup) : Type 0 where
  pub outcomes : Balance r.crashed r.abnormal r.errored r.exited r.total

pub Balance-add :
    (a b c d t a' b' c' d' t' : ℤ)
    → Balance a b c d t
    → Balance a' b' c' d' t'
    → Balance (a +ℤ a') (b +ℤ b') (c +ℤ c') (d +ℤ d') (t +ℤ t')
Balance-add a b c d t a' b' c' d' t' h h' =
    omega (arith, h, h', +ℤ_parts a a', +ℤ_parts b b', +ℤ_parts c c', +ℤ_parts d d', +ℤ_parts t t')

one_outcome :
    (status : Bytes) (some_errors : Bool)
    → Balance
        (one_if (eqb status (codes "crashed")))
        (one_if (eqb status (codes "abnormal")))
        (one_if (eqb status (codes "ok") && some_errors))
        (one_if (eqb status (codes "exited")))
        (pos 1)
one_outcome status some_errors = elim (Bool-cases (eqb status (codes "crashed"))) [
  | inl e ↦ rw (eqb_sound status _ e) (omega arith)
  | inr e ↦ elim (Bool-cases (eqb status (codes "abnormal"))) [
    | inl f ↦ rw (eqb_sound status _ f) (omega arith)
    | inr f ↦ elim (Bool-cases (eqb status (codes "exited"))) [
      | inl g ↦ rw (eqb_sound status _ g) (omega arith)
      | inr g ↦ rw (e, f, g) (ground arith)
    ]
  ]
]

counted-IsBalanced :
    (k : RollupKey) (status : Bytes) (errors : ℤ) (d c : Bytes)
    → IsBalanced (counted k status errors d c)
unfolding counted
counted-IsBalanced k status errors d c = record {
  outcomes = one_outcome status (ltb_ℤ (pos 0) errors);
}

put_rollup-IsBalanced :
    (new : Rollup) (rollups : List Rollup)
    → IsBalanced new
    → All IsBalanced rollups
    → All IsBalanced (put_rollup new rollups)
unfolding put_rollup added
put_rollup-IsBalanced new [] b h = (b, tt)
put_rollup-IsBalanced new (r ∷ rollups) b (hr, h) = elim (Bool-cases (same_key r.key new.key)) [
  | inl e ↦ rw e (record { outcomes = Balance-add _ _ _ _ _ _ _ _ _ _ hr.outcomes b.outcomes }, h)
  | inr e ↦ rw e (hr, put_rollup-IsBalanced new rollups b h)
]

-- balanced rollups, where there is no error
abbrev Balanced : Result (List Rollup) → Type 0
Balanced (ok rollups) = All IsBalanced rollups
Balanced (err e) = Unit {0}

abbrev pub IsBalancedStore : Result Store → Type 0
IsBalancedStore (ok st) = All IsBalanced st.rollups
IsBalancedStore (err e) = Unit {0}

module _ (lib : Libraries) where
  loads-Balanced :
      (rollups : List Rollup) (f : Sketch → Sketch → Rollup) (d c : Result Sketch)
      → All IsBalanced rollups
      → ((x y : Sketch) → IsBalanced (f x y))
      → Balanced (elim d [
        | err e ↦ err e
        | ok distinct ↦ elim c [
          | err e ↦ err e
          | ok crashed ↦ ok (put_rollup (f distinct crashed) rollups)
        ]
      ])
  loads-Balanced rollups f (err e) c h b = tt
  loads-Balanced rollups f (ok x) (err e) h b = tt
  loads-Balanced rollups f (ok x) (ok y) h b = put_rollup-IsBalanced (f x y) rollups (b x y) h

  fold_session-Balanced :
      (s : Session) (rollups : List Rollup)
      → All IsBalanced rollups
      → Balanced (fold_session lib s rollups)
  unfolding fold_session
  fold_session-Balanced s rollups h =
      loads-Balanced rollups _ _ _ h (λ x y. counted-IsBalanced _ s.status s.errors _ _)

  folds-IsBalanced :
      (r : Result (List Rollup)) (sessions : List Session)
      → Balanced r
      → IsBalancedStore (elim r [
        | err e ↦ err e
        | ok rollups ↦ ok (record { sessions = sessions; rollups = rollups })
      ])
  folds-IsBalanced (err e) sessions b = tt
  folds-IsBalanced (ok rollups) sessions b = b

  checks-IsBalanced :
      (r : Result Session) (st : Store) (f : Session → List Session)
      → All IsBalanced st.rollups
      → IsBalancedStore (elim r [
        | err e ↦ err e
        | ok new ↦ elim (fold_session lib new st.rollups) [
          | err e ↦ err e
          | ok rollups ↦ ok (record { sessions = f new; rollups = rollups })
        ]
      ])
  checks-IsBalanced (err e) st f h = tt
  checks-IsBalanced (ok new) st f h =
      folds-IsBalanced (fold_session lib new st.rollups) (f new)
        (fold_session-Balanced new st.rollups h)

  -- Where in each rollup the crashed, abnormal, errored and exited sessions together are at most the
  -- total, it is so after any session item that is accepted.
  pub store_session-IsBalanced :
      (project_id : Bytes) (p : Payload) (st : Store)
      → All IsBalanced st.rollups
      → IsBalancedStore (store_session lib project_id p st)
  unfolding store_session
  store_session-IsBalanced project_id p st h =
      checks-IsBalanced (session_of lib project_id p) st _ h
