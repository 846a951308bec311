-- ===== src/Ingest/Sessions/Statuses.antt =====
-- A finished session stays finished.
use bug_han.Prelude.{
  ◌≡◌, refl, true, false, some, List, [], ◌∷◌, Bytes, arith, Bool-cases, inl, inr,
}
use bug_han.Prelude.Int.{ℤ, ◌≤ℤ◌}
use bug_han.Ingest.Sessions.{
  Payload, Session, Store, Rollup, Result, ok, err, Libraries, is_terminal, merged, same_session,
  put_session, find_session, session_of, fold_session, store_session,
}

-- a finished session is as finished after, and its errors are no fewer
pub record Stays (s : Session) (j : Session) : Type 0 where
  pub status : j.status ≡ s.status
  pub errors : s.errors ≤ℤ j.errors

Stays-refl : (s : Session) → Stays s s
Stays-refl s = record { status = refl; errors = omega arith }

merged-Stays : (s new : Session) → is_terminal s.status ≡ true → Stays s (merged s new)
unfolding merged
merged-Stays s new h = record { status = rw h refl; errors = ground arith }

put_session-Stays :
    (new : Session) (sid : Bytes) (started : ℤ) (sessions : List Session) (s : Session)
    → find_session sid started sessions ≡ some s
    → is_terminal s.status ≡ true
    → (j : Session) × (find_session sid started (put_session new sessions) ≡ some j) × Stays s j
unfolding find_session put_session
put_session-Stays new sid started [] s h t = absurd (ground arith)
put_session-Stays new sid started (d ∷ sessions) s h t =
    elim (Bool-cases (same_session sid started d)) [
      | inl found ↦
          let same : d ≡ s = cc (rw found at h) in
          let ends : is_terminal d.status ≡ true = rw same t in
          elim (Bool-cases (same_session new.sid new.started d)) [
            | inl hit ↦
                let key : same_session sid started (merged d new) ≡ true = unfold merged in found in
                rw (hit, key, ← same) (merged d new, refl, merged-Stays d new ends)
            | inr miss ↦ rw (miss, found, ← same) (d, refl, Stays-refl d)
          ]
      | inr other ↦ elim (Bool-cases (same_session new.sid new.started d)) [
        | inl hit ↦
            let key : same_session sid started (merged d new) ≡ false = unfold merged in other in
            rw (hit, key) (s, rw other at h, Stays-refl s)
        | inr miss ↦
            rw (miss, other) (put_session-Stays new sid started sessions s (rw other at h) t)
      ]
    ]

-- the sessions of the store after, if there is one
abbrev pub After : (Store → Type 0) → Result Store → Type 0
After P (ok st) = P st
After P (err e) = Unit {0}

pub Finishes : Bytes → ℤ → Session → Store → Type 0
Finishes sid started s st =
    (j : Session) × (find_session sid started st.sessions ≡ some j) × Stays s j

module _ (lib : Libraries) where
  folds-Finishes :
      (sid : Bytes) (started : ℤ) (s new : Session) (st : Store) (r : Result (List Rollup))
      → find_session sid started st.sessions ≡ some s
      → is_terminal s.status ≡ true
      → After (Finishes sid started s) (elim r [
        | err e ↦ err e
        | ok rollups ↦ ok (record { sessions = put_session new st.sessions; rollups = rollups })
      ])
  unfolding Finishes
  folds-Finishes sid started s new st (err e) h t = tt
  folds-Finishes sid started s new st (ok rollups) h t =
      put_session-Stays new sid started st.sessions s h t

  checks-Finishes :
      (sid : Bytes) (started : ℤ) (s : Session) (st : Store) (r : Result Session)
      → find_session sid started st.sessions ≡ some s
      → is_terminal s.status ≡ true
      → After (Finishes sid started s) (elim r [
        | err e ↦ err e
        | ok new ↦ elim (fold_session lib new st.rollups) [
          | err e ↦ err e
          | ok rollups ↦ ok (record { sessions = put_session new st.sessions; rollups = rollups })
        ]
      ])
  checks-Finishes sid started s st (err e) h t = tt
  checks-Finishes sid started s st (ok new) h t =
      folds-Finishes sid started s new st (fold_session lib new st.rollups) h t

  -- Whatever session item is stored, a session that has crashed, exited or ended abnormally is found
  -- after with the same status and no fewer errors, where the item is accepted.
  pub store_session-Finishes :
      (project_id : Bytes) (p : Payload) (sid : Bytes) (started : ℤ) (s : Session) (st : Store)
      → find_session sid started st.sessions ≡ some s
      → is_terminal s.status ≡ true
      → After (Finishes sid started s) (store_session lib project_id p st)
  unfolding store_session
  store_session-Finishes project_id p sid started s st h t =
      checks-Finishes sid started s st (session_of lib project_id p) h t
