-- ===== src/Db/Partitions.antt =====
-- internal/db/partitions.go: DropPartitions. The partitions of a table are a list of names with the
-- text of their bounds; the parser of times is a parameter, and so is
-- which tables can be dropped.
pub mod Kept
mod Tests
use bug_han.Prelude.{
  Bool, true, false, Option, none, some, List, [], ◌∷◌, Bytes, codes, if◌then◌else◌, cut_byte,
  cut_text,
}
use bug_han.Prelude.Int.{ℤ, ltb_ℤ}

pub record Part : Type 0 where
  pub name : Bytes
  pub bound : Bytes

-- the second result of strings.Cut
pub after_text : Bytes → Bytes → Bytes
after_text pat s = elim (cut_text pat s) [ none ↦ [] | some (l, r) ↦ r ]

-- the first result of strings.Cut at a quote
pub before_quote : Bytes → Bytes
before_quote s = elim (cut_text (codes "'") s) [ none ↦ s | some (l, r) ↦ l ]

-- the text of the upper bound
pub upper_bound : Bytes → Bytes
upper_bound bound = before_quote (after_text (codes "'") (after_text (codes "TO") bound))

module _ (parse_time : Bytes → Option ℤ) where
  -- the test of the loop: the bound is understood and lies before the cutoff
  pub is_old : ℤ → Part → Bool
  is_old cutoff p = elim (parse_time (upper_bound p.bound)) [
    | none ↦ false
    | some to ↦ ltb_ℤ to cutoff
  ]

  -- DropPartitions: the partitions that are left, and whether every DROP TABLE went well, which is told
  -- by the name of the table
  pub drop_partitions : (Bytes → Bool) → ℤ → List Part → List Part × Bool
  drop_partitions drops cutoff [] = ([], true)
  drop_partitions drops cutoff (p ∷ parts) =
      let (rest, all_well) = drop_partitions drops cutoff parts in
      if is_old cutoff p
      then if drops p.name then (rest, all_well) else (p ∷ parts, false)
      else (p ∷ rest, all_well)
