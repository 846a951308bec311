-- ===== src/Alerts/Match.antt =====
-- When a rule fires, without the order of the tests.
use mathlib.Core.List.{Memᴰ}
use mathlib.Core.List.Memᴰ
use bug_han.Prelude.{
  ◌≡◌, refl, ◌⊎◌, inl, inr, ◌↔◌, true, false, List, [], ◌∷◌, Bytes, codes, arith, eqb, eqb_sound,
  eqb_refl, to_lower, Bool-cases,
}
use bug_han.Prelude.Int.{ℤ, pos, ◌≤ℤ◌}
use bug_han.Alerts.{
  Rule, Signal, contains_fold, excludes, matches_filters, matches_trigger, should_send,
}

-- a filter admits a value: it is empty or has the value, whatever the letters' case
abbrev pub Admits : List Bytes → Bytes → Type 0
Admits list v = (list ≡ []) ⊎ ((e : Bytes) × Memᴰ e list × (to_lower e ≡ to_lower v))

-- what the rule waits for has happened
pub data Happened (r : Rule) (s : Signal) (n : ℤ) : Type 0 where
  by_issue : r.trigger ≡ codes "new_issue" → s.is_new ≡ true → Happened r s n
  by_regression : r.trigger ≡ codes "regression" → s.is_regression ≡ true → Happened r s n
  by_count : r.trigger ≡ codes "event_count" → pos 1 ≤ℤ n → r.threshold_count ≤ℤ n → Happened r s n

pub record Fires (r : Rule) (s : Signal) (n : ℤ) : Type 0 where
  pub is_enabled : r.enabled ≡ true
  pub environment : Admits r.environments s.environment
  pub release : Admits r.releases s.release
  pub level : Admits r.levels s.level
  pub happened : Happened r s n

contains_fold-elem :
    (list : List Bytes) (v : Bytes)
    → contains_fold list v ≡ true
    → (e : Bytes) × Memᴰ e list × (to_lower e ≡ to_lower v)
unfolding contains_fold
contains_fold-elem [] v h = absurd (ground arith)
contains_fold-elem (e ∷ list) v h = elim (Bool-cases (eqb (to_lower e) (to_lower v))) [
  | inl same ↦ (e, Memᴰ.head refl, eqb_sound _ _ same)
  | inr other ↦
      let (d, m, same) = contains_fold-elem list v (ground arith) in (d, Memᴰ.tail m, same)
]

elem-contains_fold :
    (list : List Bytes) (v e : Bytes)
    → Memᴰ e list
    → to_lower e ≡ to_lower v
    → contains_fold list v ≡ true
unfolding contains_fold
elem-contains_fold [] v e m same = absurd (Memᴰ.not-nil m)
elem-contains_fold (d ∷ list) v e (Memᴰ.head first) same =
    let fold : eqb (to_lower d) (to_lower v) ≡ true = rw (← first, same) (eqb_refl (to_lower v)) in
    rw fold refl
elem-contains_fold (d ∷ list) v e (Memᴰ.tail m) same =
    ground (arith, elem-contains_fold list v e m same)

admits : (list : List Bytes) (v : Bytes) → excludes list v ≡ false → Admits list v
unfolding excludes
admits [] v h = inl refl
admits (e ∷ list) v h = inr (contains_fold-elem (e ∷ list) v (ground arith))

not_excluded : (list : List Bytes) (v : Bytes) → Admits list v → excludes list v ≡ false
unfolding excludes
not_excluded list v (inl none) = rw none refl
not_excluded list v (inr (e, m, same)) = rw (elem-contains_fold list v e m same) (ground arith)

-- what stands behind the guards
filters_iff :
    (r : Rule) (s : Signal)
    → (matches_filters r s ≡ true) ↔ (
        (excludes r.environments s.environment ≡ false)
        × (excludes r.releases s.release ≡ false)
        × (excludes r.levels s.level ≡ false))
unfolding matches_filters
filters_iff r s = ground arith

trigger-Happened : (r : Rule) (s : Signal) (n : ℤ) → matches_trigger r s n ≡ true → Happened r s n
unfolding matches_trigger
trigger-Happened r s n h = elim (Bool-cases (eqb r.trigger (codes "new_issue"))) [
  | inl t ↦ Happened.by_issue (eqb_sound _ _ t) (ground arith)
  | inr t ↦ elim (Bool-cases (eqb r.trigger (codes "regression"))) [
    | inl u ↦ Happened.by_regression (eqb_sound _ _ u) (ground arith)
    | inr u ↦ elim (Bool-cases (eqb r.trigger (codes "event_count"))) [
      | inl w ↦ Happened.by_count (eqb_sound _ _ w) (ground arith) (ground arith)
      | inr w ↦ absurd (ground arith)
    ]
  ]
]

Happened-trigger : (r : Rule) (s : Signal) (n : ℤ) → Happened r s n → matches_trigger r s n ≡ true
unfolding matches_trigger
Happened-trigger r s n (Happened.by_issue t new) = rw t new
Happened-trigger r s n (Happened.by_regression t again) = rw t again
Happened-trigger r s n (Happened.by_count t one many) = rw t (ground arith)

-- A rule is sent for a signal exactly where it is enabled, each of its filters is empty or has the
-- signal's value up to the letters' case, and its trigger has happened: the issue is new, it
-- regressed, or the window has at least one event and at least the rule's threshold.
pub should_send_iff : (r : Rule) (s : Signal) (n : ℤ) → (should_send r s n ≡ true) ↔ Fires r s n
unfolding should_send
should_send_iff r s n = (
  λ h.
      let (e, l, v) = (filters_iff r s).0 (ground arith) in
      record {
        is_enabled = ground arith;
        environment = admits r.environments s.environment e;
        release = admits r.releases s.release l;
        level = admits r.levels s.level v;
        happened = trigger-Happened r s n (ground arith);
      },
  λ f. ground (
    arith,
    f.is_enabled,
    Happened-trigger r s n f.happened,
    (filters_iff r s).1 (
      not_excluded r.environments s.environment f.environment,
      not_excluded r.releases s.release f.release,
      not_excluded r.levels s.level f.level,
    ),
  ),
)
