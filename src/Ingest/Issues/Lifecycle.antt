-- ===== src/Ingest/Issues/Lifecycle.antt =====
-- What an event does to the state of its issue.
use bug_han.Prelude.{
  ◌≡◌, ◌≢◌, refl, ◌∙◌, ap, true, false, ◌||◌, some, List, [], ◌∷◌, codes, arith, if◌then◌else◌,
  is_empty, Bool-cases, inl, inr,
}
use bug_han.Prelude.Int.{◌≤ℤ◌}
use bug_han.Ingest.Issues.{
  Key, Issue, Event, Store, Status, resolved, unresolved, ignored, same_key, find, folded, upsert,
  is_known, bump, bumped, count_user, upsert_issue, is_resolved,
}

-- the issue before and after an event
pub record Moves (e : Event) (i j : Issue) : Type 0 where
  pub reopened : i.status ≡ resolved → (j.status ≡ unresolved) × (j.substatus ≡ codes "regressed")
  pub kept : i.status ≢ resolved → (j.status ≡ i.status) × (j.substatus ≡ i.substatus)
  pub first : j.first_seen ≡ i.first_seen
  pub last : (i.last_seen ≤ℤ j.last_seen) × (e.timestamp ≤ℤ j.last_seen)
  pub level : j.level ≡ e.level

unless {ℓ} :
    {A : Type ℓ} (s : Status) (a b : A) → s ≢ resolved → (if is_resolved s then b else a) ≡ a
unless unresolved a b n = refl
unless resolved a b n = absurd (n refl)
unless ignored a b n = refl

folded-Moves :
    (e : Event) (i j : Issue)
    → j.status ≡ (folded e i).status
    → j.substatus ≡ (folded e i).substatus
    → j.first_seen ≡ i.first_seen
    → j.last_seen ≡ (folded e i).last_seen
    → j.level ≡ e.level
    → Moves e i j
unfolding folded
folded-Moves e i j status substatus first last level = record {
  reopened = λ r. (rw r at status, rw r at substatus);
  kept = λ n. (
    status ∙ (unless i.status i.status unresolved n),
    substatus ∙ unless i.status i.substatus (codes "regressed") n,
  );
  first = first;
  last = rw last (ground arith);
  level = level;
}

find-upsert :
    (e : Event) (issues : List Issue) (i : Issue)
    → find e.key issues ≡ some i
    → find e.key (upsert e issues) ≡ some (folded e i)
unfolding find upsert
find-upsert e [] i h = absurd (ground arith)
find-upsert e (d ∷ issues) i h = elim (Bool-cases (same_key d.key e.key)) [
  | inl s ↦
      let same : d ≡ i = cc (rw s at h) in
      let key : same_key (folded e d).key e.key ≡ true = unfold folded in s in
      rw (s, key) (ap (λ d. some (folded e d)) same)
  | inr s ↦ rw (s, s) (find-upsert e issues i (rw s at h))
]

-- the bump keeps everything but the user count
find-bump :
    (k : Key) (issues : List Issue) (i : Issue)
    → find k issues ≡ some i
    → find k (bump k issues) ≡ some (bumped i)
unfolding find bump
find-bump k [] i h = absurd (ground arith)
find-bump k (d ∷ issues) i h = elim (Bool-cases (same_key d.key k)) [
  | inl s ↦ let same : d ≡ i = cc (rw s at h) in rw (s, s) (ap (λ d. some (bumped d)) same)
  | inr s ↦ rw (s, s) (find-bump k issues i (rw s at h))
]

-- An event whose issue exists is no new issue, and is a regression exactly where the issue was
-- resolved: then the issue is unresolved again, as regressed; an issue in any other state, an ignored
-- one also, keeps it. The time of the first event stays, that of the last is none earlier than the
-- event's, and the level is the event's.
pub upsert_issue-Moves :
    (e : Event) (st : Store) (i : Issue)
    → find e.key st.issues ≡ some i
    → ((upsert_issue e st).is_new ≡ false)
      × ((upsert_issue e st).is_regression ≡ is_resolved i.status)
      × ((j : Issue) × (find e.key (upsert_issue e st).store.issues ≡ some j) × Moves e i j)
unfolding upsert_issue count_user
upsert_issue-Moves e st i h = (
  rw (h, upsert_issue) refl,
  rw (h, upsert_issue) refl,
  elim (Bool-cases (is_empty e.user_hash || is_known e.key e.user_hash st.users)) [
    | inl skip ↦ rw skip (
      folded e i,
      find-upsert e st.issues i h,
      folded-Moves e i (folded e i) refl refl (unfold folded in refl) refl (unfold folded in refl),
    )
    | inr new ↦ rw new (
      bumped (folded e i),
      find-bump e.key (upsert e st.issues) (folded e i) (find-upsert e st.issues i h),
      folded-Moves e i _ refl refl (unfold folded in refl) refl (unfold folded in refl),
    )
  ],
)
