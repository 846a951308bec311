-- ===== src/Ingest/Issues/Counters.antt =====
-- The counters of an issue are those of the events and users that were folded into it.
use bug_han.Prelude.{
  ℕ, ◌+◌, ◌≡◌, refl, ◌∙◌, sym, ap, ap₂, Bool, true, false, ◌||◌, Option, none, some, List, [], ◌∷◌,
  Bytes, arith, if◌then◌else◌, eqb, eqb_sound, eqb_refl, is_empty, Bool-cases, inl, inr, and_left,
  and_right,
}
use bug_han.Ingest.Issues.{
  Key, Issue, Event, Store, same_key, find, opened, folded, upsert, is_known, bump, count_user,
  upsert_issue,
}

pub same_key_sound : (a b : Key) → same_key a b ≡ true → a ≡ b
same_key_sound a b h =
    ap₂ (λ p f. record { project_id = p; fingerprint = f })
      (eqb_sound a.project_id b.project_id (and_left _ _ h))
      (eqb_sound a.fingerprint b.fingerprint (and_right (eqb a.project_id b.project_id) _ h))

same_key_refl : (a : Key) → same_key a a ≡ true
same_key_refl a = ground (arith, eqb_refl a.project_id, eqb_refl a.fingerprint)

-- a counter of the issue of a key, 0 where there is no issue
abbrev counter : (Issue → ℕ) → Option Issue → ℕ
counter f none = 0
counter f (some i) = f i

pub count_at : Key → Store → ℕ
count_at k st = counter (λ i. i.count) (find k st.issues)

unfoldable pub user_count_at : Key → Store → ℕ
user_count_at k st = counter (λ i. i.user_count) (find k st.issues)

abbrev pub one_if : Bool → ℕ
one_if b = if b then 1 else 0

-- the rows of issue_user_hashes of an issue
unfoldable pub users_of : Key → List (Key × Bytes) → ℕ
users_of k [] = 0
users_of k ((j, h) ∷ users) = one_if (same_key j k) + users_of k users

-- the events of a key
pub events_of : Key → List Event → ℕ
events_of k [] = 0
events_of k (e ∷ events) = one_if (same_key e.key k) + events_of k events

-- the store after events, one after the other
pub ingest : List Event → Store → Store
ingest [] st = st
ingest (e ∷ events) st = ingest events (upsert_issue e st).store

same_key_other : (a b c : Key) → same_key a b ≡ true → same_key a c ≡ same_key b c
same_key_other a b c h = ap (λ x. same_key x c) (same_key_sound a b h)

same_key_apart : (a b k : Key) → same_key a b ≡ false → same_key a k ≡ true → same_key b k ≡ false
same_key_apart a b k s t = elim (Bool-cases (same_key b k)) [
  | inr u ↦ u
  | inl u ↦
      let clash : false ≡ true = sym s ∙ ap (same_key a) (same_key_sound b k u) ∙ t in absurd (cc)
]

counter-upsert :
    (e : Event) (k : Key) (issues : List Issue)
    → counter (λ i. i.count) (find k (upsert e issues))
      ≡ one_if (same_key e.key k) + counter (λ i. i.count) (find k issues)
unfolding find upsert opened folded
counter-upsert e k [] = elim (Bool-cases (same_key e.key k)) [
  | inl s ↦ rw s refl
  | inr s ↦ rw s refl
]
counter-upsert e k (i ∷ issues) = elim (Bool-cases (same_key i.key e.key)) [
  | inl s ↦ elim (Bool-cases (same_key i.key k)) [
    | inl t ↦ rw (s, t, ← same_key_other i.key e.key k s, t) (omega arith)
    | inr t ↦ rw (s, t, ← same_key_other i.key e.key k s, t) (omega arith)
  ]
  | inr s ↦ elim (Bool-cases (same_key i.key k)) [
    | inl t ↦
        let other : same_key e.key k ≡ false = same_key_apart i.key e.key k s t in
        rw (s, t, other) (omega arith)
    | inr t ↦ rw (s, t) (counter-upsert e k issues)
  ]
]

-- the user counter under the upsert, which keeps it, and under the bump
user_counter-upsert :
    (e : Event) (k : Key) (issues : List Issue)
    → counter (λ i. i.user_count) (find k (upsert e issues))
      ≡ counter (λ i. i.user_count) (find k issues)
unfolding find upsert opened folded
user_counter-upsert e k [] = elim (Bool-cases (same_key e.key k)) [
  | inl s ↦ rw s refl
  | inr s ↦ rw s refl
]
user_counter-upsert e k (i ∷ issues) = elim (Bool-cases (same_key i.key e.key)) [
  | inl s ↦ elim (Bool-cases (same_key i.key k)) [ inl t ↦ rw (s, t) refl | inr t ↦ rw (s, t) refl ]
  | inr s ↦ elim (Bool-cases (same_key i.key k)) [
    | inl t ↦ rw (s, t) refl
    | inr t ↦ rw (s, t) (user_counter-upsert e k issues)
  ]
]

-- the issue of the event is there after the upsert
Present : Key → List Issue → Type 0
Present k issues = (i : Issue) × (find k issues ≡ some i)

find-upsert : (e : Event) (issues : List Issue) → Present e.key (upsert e issues)
unfolding find upsert opened folded Present
find-upsert e [] = (opened e, rw (same_key_refl e.key) refl)
find-upsert e (i ∷ issues) = elim (Bool-cases (same_key i.key e.key)) [
  | inl s ↦ rw (s, s) (folded e i, refl)
  | inr s ↦ rw (s, s) (find-upsert e issues)
]

counters-bump :
    (b k : Key) (issues : List Issue)
    → Present b issues
    → (counter (λ i. i.user_count) (find k (bump b issues))
        ≡ one_if (same_key b k) + counter (λ i. i.user_count) (find k issues))
      × (counter (λ i. i.count) (find k (bump b issues)) ≡ counter (λ i. i.count) (find k issues))
unfolding find bump Present
counters-bump b k [] (i, p) = absurd (ground arith)
counters-bump b k (i ∷ issues) (j, p) = elim (Bool-cases (same_key i.key b)) [
  | inl s ↦ elim (Bool-cases (same_key i.key k)) [
    | inl t ↦ rw (s, t, ← same_key_other i.key b k s, t) (omega arith, refl)
    | inr t ↦ rw (s, t, ← same_key_other i.key b k s, t) (omega arith, refl)
  ]
  | inr s ↦ elim (Bool-cases (same_key i.key k)) [
    | inl t ↦
        let other : same_key b k ≡ false = same_key_apart i.key b k s t in
        rw (s, t, other) (omega arith, refl)
    | inr t ↦ rw (s, t) (counters-bump b k issues (j, rw s at p))
  ]
]

pub count_at-none :
    (k : Key) (users : List (Key × Bytes)) → count_at k (record { issues = []; users = users }) ≡ 0
unfolding count_at find
count_at-none k users = refl

-- every issue's user counter is the number of its rows
pub record AreCounted (st : Store) : Type 0 where
  pub counted : (k : Key) → user_count_at k st ≡ users_of k st.users

pub upsert_issue-count :
    (e : Event) (k : Key) (st : Store)
    → count_at k (upsert_issue e st).store ≡ one_if (same_key e.key k) + count_at k st
unfolding upsert_issue count_user count_at
upsert_issue-count e k st =
    elim (Bool-cases (is_empty e.user_hash || is_known e.key e.user_hash st.users)) [
      | inl skip ↦ rw skip (counter-upsert e k st.issues)
      | inr new ↦ rw new (
          (counters-bump e.key k (upsert e st.issues) (find-upsert e st.issues)).1
          ∙ counter-upsert e k st.issues)
    ]

upsert_issue-AreCounted :
    (e : Event) (st : Store) → AreCounted st → AreCounted (upsert_issue e st).store
unfolding upsert_issue count_user user_count_at users_of
upsert_issue-AreCounted e st h =
    elim (Bool-cases (is_empty e.user_hash || is_known e.key e.user_hash st.users)) [
      | inl skip ↦
          rw skip (record { counted = λ k. user_counter-upsert e k st.issues ∙ h.counted k })
      | inr new ↦ rw new (record {
        counted = λ k.
            (counters-bump e.key k (upsert e st.issues) (find-upsert e st.issues)).0
            ∙ ap (λ n. one_if (same_key e.key k) + n)
                (user_counter-upsert e k st.issues ∙ h.counted k);
      })
    ]

-- After any events, each upserted in turn, an issue's count has grown by the number of the events with
-- its key, where an issue that is not there counts 0.
pub ingest-count :
    (events : List Event) (k : Key) (st : Store)
    → count_at k (ingest events st) ≡ events_of k events + count_at k st
unfolding ingest events_of
ingest-count [] k st = omega arith
ingest-count (e ∷ events) k st =
    omega (arith, ingest-count events k (upsert_issue e st).store, upsert_issue-count e k st)

-- Where the user count of every issue is the number of its rows of issue_user_hashes, it is so after
-- any events, each upserted in turn.
pub ingest-AreCounted :
    (events : List Event) (st : Store) → AreCounted st → AreCounted (ingest events st)
unfolding ingest
ingest-AreCounted [] st h = h
ingest-AreCounted (e ∷ events) st h =
    ingest-AreCounted events (upsert_issue e st).store (upsert_issue-AreCounted e st h)
