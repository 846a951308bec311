-- ===== src/Auth/Sessions/Sliding.antt =====
-- A session that is used stays.
use bug_han.Prelude.{
  ℕ, ◌+◌, ◌-◌, ◌<◌, ◌≤◌, ◌≡◌, refl, ap₂, subst, sym, true, false, Option, none, some, List, [], ◌∷◌,
  Bytes, arith, if◌then◌else◌, ltb, eqb, eqb_refl, is_empty, length, replicate, Bool-cases, inl,
  inr,
}
use bug_han.Auth.Tokens.{hash_token}
use bug_han.Auth.Sessions.{
  session_ttl, sliding_window, SessionRow, find_live, slide, create, lookup,
}

-- the first session with a hash is the user's and lasts until a time
pub Lasts : Bytes → Bytes → ℕ → List SessionRow → Type 0
Lasts hash user_id until_time [] = ⊥
Lasts hash user_id until_time (r ∷ rows) =
    if eqb r.token_hash hash
    then (r.user_id ≡ user_id) × (until_time ≤ r.expires_at)
    else Lasts hash user_id until_time rows

-- such a session is found before that time
abbrev Found : Bytes → ℕ → Option SessionRow → Type 0
Found user_id until_time none = ⊥
Found user_id until_time (some r) = (r.user_id ≡ user_id) × (until_time ≤ r.expires_at)

find_live-Found :
    (hash user_id : Bytes) (now until_time : ℕ) (rows : List SessionRow)
    → now < until_time
    → Lasts hash user_id until_time rows
    → Found user_id until_time (find_live hash now rows)
unfolding find_live Lasts
find_live-Found hash user_id now until_time [] t h = h
find_live-Found hash user_id now until_time (r ∷ rows) t h =
    elim (Bool-cases (eqb r.token_hash hash)) [
      | inl e ↦
          let (u, late) = rw e at h in
          let alive : ltb now r.expires_at ≡ true = ground arith in rw (e, alive) (u, late)
      | inr e ↦ rw e (find_live-Found hash user_id now until_time rows t (rw e at h))
    ]

slide-Lasts :
    (hash user_id : Bytes) (until_time expires_at : ℕ) (rows : List SessionRow)
    → Lasts hash user_id until_time rows
    → Lasts hash user_id expires_at (slide hash expires_at rows)
unfolding slide Lasts
slide-Lasts hash user_id until_time expires_at [] h = h
slide-Lasts hash user_id until_time expires_at (r ∷ rows) h =
    elim (Bool-cases (eqb r.token_hash hash)) [
      | inl e ↦ rw (e, e) ((rw e at h).0, omega arith)
      | inr e ↦ rw (e, e) (slide-Lasts hash user_id until_time expires_at rows (rw e at h))
    ]

outlives :
    (hash user_id : Bytes) (sooner until_time : ℕ) (rows : List SessionRow)
    → sooner ≤ until_time
    → Lasts hash user_id until_time rows
    → Lasts hash user_id sooner rows
unfolding Lasts
outlives hash user_id sooner until_time [] le h = h
outlives hash user_id sooner until_time (r ∷ rows) le h =
    elim (Bool-cases (eqb r.token_hash hash)) [
      | inl e ↦ rw e ((rw e at h).0, let late = (rw e at h).1 in omega arith)
      | inr e ↦ rw e (outlives hash user_id sooner until_time rows le (rw e at h))
    ]

some_inj : (x y : SessionRow) → some x ≡ some y → x ≡ y
some_inj x y e = cc

-- the session that is found is the first one with the hash
found_first :
    (hash user_id : Bytes) (now sooner until_time : ℕ) (r : SessionRow) (rows : List SessionRow)
    → now < until_time
    → sooner ≤ r.expires_at
    → find_live hash now rows ≡ some r
    → Lasts hash user_id until_time rows
    → Lasts hash user_id sooner rows
unfolding find_live Lasts
found_first hash user_id now sooner until_time r [] t le e h = h
found_first hash user_id now sooner until_time r (x ∷ rows) t le e h =
    elim (Bool-cases (eqb x.token_hash hash)) [
      | inl s ↦
          let (u, late) = rw s at h in
          let alive : ltb now x.expires_at ≡ true = ground arith in
          let same : x ≡ r = some_inj x r (rw (s, alive) at e) in
          rw s (u, subst (λ y. sooner ≤ y.expires_at) (sym same) le)
      | inr s ↦
          rw s (found_first hash user_id now sooner until_time r rows t le (rw s at e) (rw s at h))
    ]

-- each visit is less than the window after the one before
abbrev pub AreClose : ℕ → List ℕ → Type 0
AreClose last [] = Unit {0}
AreClose last (now ∷ visits) = (now < last + sliding_window) × AreClose now visits

module _ (sha256 : Bytes → Bytes) where
  -- the answer to a request with the cookie, and the session after it
  abbrev StaysSignedIn : Bytes → Bytes → ℕ → Bytes × List SessionRow → Type 0
  StaysSignedIn hash user_id now (found, rows) =
      (found ≡ user_id) × Lasts hash user_id (now + sliding_window) rows

  row-StaysSignedIn :
      (hash user_id : Bytes) (now until_time : ℕ) (rows : List SessionRow) (o : Option SessionRow)
      → now < until_time
      → find_live hash now rows ≡ o
      → Found user_id until_time o
      → Lasts hash user_id until_time rows
      → StaysSignedIn hash user_id now (elim o [
        | none ↦ ([], rows)
        | some r ↦
            if ltb (r.expires_at - now) sliding_window
            then (r.user_id, slide hash (now + session_ttl) rows)
            else (r.user_id, rows)
      ])
  row-StaysSignedIn hash user_id now until_time rows none t e h l = elim h [ ]
  row-StaysSignedIn hash user_id now until_time rows (some r) t e (u, late) l =
      elim (Bool-cases (ltb (r.expires_at - now) sliding_window)) [
        | inl short ↦ rw short (
          u,
          outlives hash user_id (now + sliding_window) (now + session_ttl) _ (omega arith)
              (slide-Lasts hash user_id until_time (now + session_ttl) rows l),
        )
        | inr long ↦ rw long (
          u,
          found_first hash user_id now (now + sliding_window) until_time r rows t (ground arith) e
              l,
        )
      ]

  lookup-StaysSignedIn :
      (cookie user_id : Bytes) (now until_time : ℕ) (rows : List SessionRow)
      → is_empty cookie ≡ false
      → now < until_time
      → Lasts (hash_token sha256 cookie) user_id until_time rows
      → StaysSignedIn (hash_token sha256 cookie) user_id now (lookup sha256 now cookie rows)
  unfolding lookup
  lookup-StaysSignedIn cookie user_id now until_time rows c t l = rw c (
      row-StaysSignedIn (hash_token sha256 cookie) user_id now until_time rows
        (find_live (hash_token sha256 cookie) now rows) t refl
        (find_live-Found (hash_token sha256 cookie) user_id now until_time rows t l) l)

  -- what the visits of a browser with a cookie are answered, one after the other
  pub answers : Bytes → List ℕ → List SessionRow → List Bytes
  answers cookie [] rows = []
  answers cookie (now ∷ visits) rows =
      let (found, rows') = lookup sha256 now cookie rows in found ∷ answers cookie visits rows'

  answers-StaysSignedIn :
      (cookie user_id : Bytes) (last : ℕ) (visits : List ℕ) (rows : List SessionRow)
      → is_empty cookie ≡ false
      → AreClose last visits
      → Lasts (hash_token sha256 cookie) user_id (last + sliding_window) rows
      → answers cookie visits rows ≡ replicate (length visits) user_id
  unfolding answers
  answers-StaysSignedIn cookie user_id last [] rows c close l = refl
  answers-StaysSignedIn cookie user_id last (now ∷ visits) rows c (near, close) l =
      let step = lookup-StaysSignedIn cookie user_id now (last + sliding_window) rows c near l in
      ap₂ (λ x xs. x ∷ xs) step.0
        (answers-StaysSignedIn cookie user_id now visits (lookup sha256 now cookie rows).1 c close
          step.1)

  -- A user who signs in and then comes back with the cookie again and again, each time less than 24
  -- hours after the time before, is recognised at every visit, however long this goes on.
  pub create-answers :
      (cookie user_id id : Bytes) (now : ℕ) (visits : List ℕ) (rows : List SessionRow)
      → is_empty cookie ≡ false
      → AreClose now visits
      → answers cookie visits (create sha256 now user_id id cookie rows)
        ≡ replicate (length visits) user_id
  unfolding create Lasts
  create-answers cookie user_id id now visits rows c close =
      answers-StaysSignedIn cookie user_id now visits (create sha256 now user_id id cookie rows) c
        close (rw (eqb_refl (hash_token sha256 cookie)) (refl, omega arith))
