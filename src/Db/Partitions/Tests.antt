-- ===== src/Db/Partitions/Tests.antt =====
-- Two partitions, whose bounds are read by their month.
use mathlib.Core.List.{Memᴰ}
use bug_han.Prelude.{
  ◌≡◌, refl, Bool, true, Option, none, some, List, [], ◌∷◌, Bytes, codes, eqb, All, if◌then◌else◌,
}
use bug_han.Prelude.Int.{ℤ, pos}
use bug_han.Db.Partitions.{Part, after_text, before_quote, upper_bound, is_old, drop_partitions}
use bug_han.Db.Partitions.Kept.{IsKept, IsNeeded, drop_partitions_lem}

abbrev parse : Bytes → Option ℤ
parse t = if eqb t (codes "2026-02") then some (pos 2) else none

abbrev parts : List Part
parts =
    record { name = codes "events_2026_01"; bound = codes "FROM ('2026-01') TO ('2026-02')" }
    ∷ record { name = codes "events_other"; bound = codes "DEFAULT" }
    ∷ []

abbrev drops : Bytes → Bool
drops name = true

-- the first one is dropped
drops_first : (drop_partitions parse drops (pos 3) parts).1 ≡ true
unfolding drop_partitions is_old upper_bound before_quote after_text
drops_first = refl

drop_partitions_lem_example :
    ((p : Part)
      → Memᴰ p parts
      → IsNeeded parse (pos 3) p
      → Memᴰ p (drop_partitions parse drops (pos 3) parts).0)
    × ((drop_partitions parse drops (pos 3) parts).1 ≡ true
        → All (IsKept parse (pos 3) parts) (drop_partitions parse drops (pos 3) parts).0)
drop_partitions_lem_example = drop_partitions_lem parse drops (pos 3) parts
