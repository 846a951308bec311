-- ===== src/Ingest/Sessions/Tests.antt =====
-- A crashed session that is sent again.
use bug_han.Prelude.{◌≡◌, refl, true, false, some, [], ◌∷◌, ◌++◌, codes, arith}
use bug_han.Prelude.Int.{pos}
use bug_han.Ingest.Sessions.{
  Payload, Session, Store, Libraries, is_terminal, find_session, store_session,
}
use bug_han.Ingest.Sessions.Statuses.{After, Finishes, store_session-Finishes}
use bug_han.Ingest.Sessions.Rollups.{IsBalancedStore, store_session-IsBalanced}

-- stand-ins: every time is 7, a UUID is its text, a hash is the text padded
abbrev stand_ins : Libraries
stand_ins = record {
  parse_time = λ t. some (pos 7);
  truncate_hour = λ t. pos 0;
  parse_uuid = λ t. some t;
  fresh_uuid = codes "fresh";
  hash_did = λ t. t;
  sha256 = λ t. t ++ codes "01234567";
}

abbrev crashed : Session
crashed = record {
  sid = codes "s1";
  started = pos 7;
  project_id = codes "p";
  status = codes "crashed";
  errors = pos 1;
  did_hash = [];
  release = codes "1.0";
  environment = codes "production";
  init = true;
}

abbrev one_session : Store
one_session = record {
  sessions = crashed ∷ [];
  rollups =
      record {
        key = record {
          project_id = codes "p";
          release = codes "1.0";
          environment = codes "production";
          hour = pos 0;
        };
        total = pos 3;
        crashed = pos 1;
        abnormal = pos 0;
        errored = pos 1;
        exited = pos 1;
        distinct_did = [];
        crashed_did = [];
      }
      ∷ [];
}

abbrev again : Payload
again = record {
  sid = codes "s1";
  init = false;
  started = codes "t";
  status = codes "exited";
  errors = pos 0;
  did = [];
  release = codes "1.0";
  environment = [];
}

crashed_found : find_session (codes "s1") (pos 7) (crashed ∷ []) ≡ some crashed
unfolding find_session
crashed_found = refl

crashed_is_terminal : is_terminal (codes "crashed") ≡ true
unfolding is_terminal
crashed_is_terminal = refl

store_session-Finishes_example :
    After
      (Finishes (codes "s1") (pos 7) crashed)
      (store_session stand_ins (codes "p") again one_session)
store_session-Finishes_example =
    store_session-Finishes stand_ins (codes "p") again (codes "s1") (pos 7) crashed one_session
      crashed_found crashed_is_terminal

store_session-IsBalanced_example :
    IsBalancedStore (store_session stand_ins (codes "p") again one_session)
store_session-IsBalanced_example =
    store_session-IsBalanced stand_ins (codes "p") again one_session
      (record { outcomes = omega arith }, tt)
