-- ===== src/Db/Partitions/Kept.antt =====
-- Which partitions are left.
use mathlib.Core.List.{Memᴰ}
use mathlib.Core.List.Memᴰ
use bug_han.Prelude.{
  ◌≡◌, refl, subst, Bool, true, false, Option, some, List, [], ◌∷◌, Bytes, arith, Bool-cases,
  Option-cases, inl, inr, All,
}
use bug_han.Prelude.Int.{ℤ, ltb_ℤ, ◌≤ℤ◌}
use bug_han.Db.Partitions.{Part, upper_bound, is_old, drop_partitions}

module _ (parse_time : Bytes → Option ℤ) where
  -- the upper bound, where it is understood, is the cutoff or later
  abbrev pub IsNeeded : ℤ → Part → Type 0
  IsNeeded cutoff p = (to : ℤ) → parse_time (upper_bound p.bound) ≡ some to → cutoff ≤ℤ to

  -- a partition of the table that is needed
  pub record IsKept (cutoff : ℤ) (parts : List Part) (p : Part) : Type 0 where
    pub was_there : Memᴰ p parts
    pub needed : IsNeeded cutoff p

  IsKept-later :
      (cutoff : ℤ) (q : Part) (parts kept : List Part)
      → All (IsKept cutoff parts) kept
      → All (IsKept cutoff (q ∷ parts)) kept
  IsKept-later cutoff q parts [] h = tt
  IsKept-later cutoff q parts (p ∷ kept) (hp, h) = (
    record { was_there = Memᴰ.tail hp.was_there; needed = hp.needed },
    IsKept-later cutoff q parts kept h,
  )

  not_old-IsNeeded :
      (cutoff : ℤ) (p : Part) → is_old parse_time cutoff p ≡ false → IsNeeded cutoff p
  unfolding is_old
  not_old-IsNeeded cutoff p h to e =
      let test : ltb_ℤ to cutoff ≡ false = rw (e, is_old) at h in ground (arith, test)

  IsNeeded-not_old :
      (cutoff : ℤ) (p : Part) → IsNeeded cutoff p → is_old parse_time cutoff p ≡ false
  unfolding is_old
  IsNeeded-not_old cutoff p h = elim (Option-cases (parse_time (upper_bound p.bound))) [
    | inl e ↦ rw (e, is_old) refl
    | inr (to, e) ↦ let le : cutoff ≤ℤ to = h to e in rw (e, is_old) (ground (arith, le))
  ]

  module _ (drops : Bytes → Bool) where
    drop_partitions-IsKept :
        (cutoff : ℤ) (parts : List Part)
        → (drop_partitions parse_time drops cutoff parts).1 ≡ true
        → All (IsKept cutoff parts) (drop_partitions parse_time drops cutoff parts).0
    unfolding drop_partitions
    drop_partitions-IsKept cutoff [] w = tt
    drop_partitions-IsKept cutoff (p ∷ parts) w = elim (Bool-cases (is_old parse_time cutoff p)) [
      | inr new ↦ rw new (
        record { was_there = Memᴰ.head refl; needed = not_old-IsNeeded cutoff p new },
        IsKept-later cutoff p parts (drop_partitions parse_time drops cutoff parts).0
            (drop_partitions-IsKept cutoff parts (rw new at w)),
      )
      | inl old ↦ elim (Bool-cases (drops p.name)) [
        | inl went ↦
            rw (old, went)
              (IsKept-later cutoff p parts (drop_partitions parse_time drops cutoff parts).0
                (drop_partitions-IsKept cutoff parts (rw (old, went) at w)))
        | inr failed ↦ absurd (cc (rw (old, failed) at w))
      ]
    ]

    needed-Mem :
        (cutoff : ℤ) (parts : List Part) (p : Part)
        → Memᴰ p parts
        → IsNeeded cutoff p
        → Memᴰ p (drop_partitions parse_time drops cutoff parts).0
    unfolding drop_partitions
    needed-Mem cutoff [] p m h = absurd (Memᴰ.not-nil m)
    needed-Mem cutoff (q ∷ parts) p (Memᴰ.head same) h =
        let new : is_old parse_time cutoff q ≡ false =
          IsNeeded-not_old cutoff q (subst (IsNeeded cutoff) same h) in
        rw new (Memᴰ.head same)
    needed-Mem cutoff (q ∷ parts) p (Memᴰ.tail m) h =
        let rest = needed-Mem cutoff parts p m h in
        elim (Bool-cases (is_old parse_time cutoff q)) [
          | inr new ↦ rw new (Memᴰ.tail rest)
          | inl old ↦ elim (Bool-cases (drops q.name)) [
            | inl went ↦ rw (old, went) rest
            | inr failed ↦ rw (old, failed) (Memᴰ.tail m)
          ]
        ]

    -- Every partition of a table is left whose upper bound is the cutoff or later, or is not understood,
    -- even where the sweep stops at a table that cannot be dropped; and where it does not stop, what is
    -- left are such partitions of the table and no others.
    pub drop_partitions_lem :
        (cutoff : ℤ) (parts : List Part)
        → ((p : Part)
            → Memᴰ p parts
            → IsNeeded cutoff p
            → Memᴰ p (drop_partitions parse_time drops cutoff parts).0)
          × ((drop_partitions parse_time drops cutoff parts).1 ≡ true
              → All (IsKept cutoff parts) (drop_partitions parse_time drops cutoff parts).0)
    drop_partitions_lem cutoff parts =
        (needed-Mem cutoff parts, drop_partitions-IsKept cutoff parts)
