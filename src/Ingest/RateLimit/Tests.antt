-- ===== src/Ingest/RateLimit/Tests.antt =====
-- Four requests with a limit of two, one of them while the database fails.
use bug_han.Prelude.{◌+◌, ◌≡◌, refl, true, false, List, [], ◌∷◌, codes, arith}
use bug_han.Ingest.RateLimit.{window_of}
use bug_han.Ingest.RateLimit.Quota.{Call, passed, count_of, passed-limit}

abbrev calls : List Call
calls = (true, 5) ∷ (false, 6) ∷ (true, 7) ∷ (true, 8) ∷ []

none_yet : count_of (codes "p") 0 [] ≡ 0
unfolding count_of
none_yet = refl

passed-limit_example : passed 2 (codes "p") calls [] ≡ 2 + 1
unfolding window_of
passed-limit_example =
    passed-limit 2 (codes "p") 0 calls [] (omega arith) (refl, (refl, (refl, (refl, tt)))) none_yet
