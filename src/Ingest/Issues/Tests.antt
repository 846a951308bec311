-- ===== src/Ingest/Issues/Tests.antt =====
-- Events of two issues, and the theorems on them.
use bug_han.Prelude.{◌+◌, ◌≡◌, refl, true, false, some, List, [], ◌∷◌, codes}
use bug_han.Prelude.Int.{pos}
use bug_han.Ingest.Issues.{Key, Issue, Event, Store, find, opened, resolved, upsert_issue}
use bug_han.Ingest.Issues.Counters.{
  AreCounted, count_at, user_count_at, users_of, events_of, ingest, ingest-count, ingest-AreCounted,
}
use bug_han.Ingest.Issues.Lifecycle.{Moves, upsert_issue-Moves}

abbrev key : Key
key = record { project_id = codes "p"; fingerprint = codes "f" }

abbrev event : Event
event = record {
  key = key;
  title = codes "boom";
  culprit = [];
  level = codes "error";
  user_hash = codes "u";
  timestamp = pos 5;
}

abbrev events : List Event
events =
    event
    ∷ record event { timestamp = pos 3 }
    ∷ record event { key = record key { fingerprint = codes "g" } }
    ∷ []

abbrev nothing : Store
nothing = record { issues = []; users = [] }

ingest-count_example :
    count_at key (ingest events nothing) ≡ events_of key events + count_at key nothing
ingest-count_example = ingest-count events key nothing

nothing-AreCounted : AreCounted nothing
unfolding user_count_at users_of find
nothing-AreCounted = record { counted = λ k. refl }

ingest-AreCounted_example : AreCounted (ingest events nothing)
ingest-AreCounted_example = ingest-AreCounted events nothing nothing-AreCounted

abbrev fixed : Issue
fixed = record (opened event) { status = resolved }

abbrev one_fixed : Store
one_fixed = record { issues = fixed ∷ []; users = [] }

fixed_found : find key (fixed ∷ []) ≡ some fixed
unfolding find opened
fixed_found = refl

upsert_issue-Moves_example :
    ((upsert_issue event one_fixed).is_new ≡ false)
    × ((upsert_issue event one_fixed).is_regression ≡ true)
    × ((j : Issue) × (find key (upsert_issue event one_fixed).store.issues ≡ some j)
        × Moves event fixed j)
upsert_issue-Moves_example = upsert_issue-Moves event one_fixed fixed fixed_found
