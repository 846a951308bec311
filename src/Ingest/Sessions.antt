-- ===== src/Ingest/Sessions.antt =====
-- internal/ingest/store.go: storeSession, which keeps a session and folds it into the hourly rollup.
-- The tables sessions_part and session_rollups are the state. The decoded payload is the input; the
-- time and UUID parsers, the hash of a device id and SHA-256 are parameters. Durations, which are
-- floating point, are left out.
pub mod Statuses
pub mod Rollups
mod Tests
use bug_han.Prelude.{
  Bool, true, false, not, ◌&&◌, ◌||◌, Option, none, some, List, [], ◌∷◌, Bytes, codes,
  if◌then◌else◌, eqb, is_empty,
}
use bug_han.Prelude.Int.{ℤ, pos, ◌+ℤ◌, ltb_ℤ}
use bug_han.Hll.{Sketch, empty, insert, marshal_binary, unmarshal_binary}

-- the decoded payload
pub record Payload : Type 0 where
  pub sid : Bytes
  pub init : Bool
  pub started : Bytes
  pub status : Bytes
  pub errors : ℤ
  pub did : Bytes
  pub release : Bytes
  pub environment : Bytes

-- a row of sessions_part
pub record Session : Type 0 where
  pub sid : Bytes
  pub started : ℤ
  pub project_id : Bytes
  pub status : Bytes
  pub errors : ℤ
  pub did_hash : Bytes
  pub release : Bytes
  pub environment : Bytes
  pub init : Bool

pub record RollupKey : Type 0 where
  pub project_id : Bytes
  pub release : Bytes
  pub environment : Bytes
  pub hour : ℤ

-- a row of session_rollups; its counters are the integers of the columns, and an empty blob is
-- NULL as well
pub record Rollup : Type 0 where
  pub key : RollupKey
  pub total : ℤ
  pub crashed : ℤ
  pub abnormal : ℤ
  pub errored : ℤ
  pub exited : ℤ
  pub distinct_did : Bytes
  pub crashed_did : Bytes

pub record Store : Type 0 where
  pub sessions : List Session
  pub rollups : List Rollup

pub data SessionError : Type 0 where
  missing_started bad_started missing_release bad_sid bad_sketch : SessionError

pub data Result {ℓ} (A : Type ℓ) : Type ℓ where
  ok : A → Result A
  err : SessionError → Result A

pub record Libraries : Type 0 where
  pub parse_time : Bytes → Option ℤ
  pub truncate_hour : ℤ → ℤ
  pub parse_uuid : Bytes → Option Bytes
  pub fresh_uuid : Bytes
  pub hash_did : Bytes → Bytes
  pub sha256 : Bytes → Bytes

abbrev pub eq_ℤ : ℤ → ℤ → Bool
eq_ℤ a b = not (ltb_ℤ a b) && not (ltb_ℤ b a)

-- `status IN ('crashed','exited','abnormal')`
pub is_terminal : Bytes → Bool
is_terminal status =
    eqb status (codes "crashed") || (eqb status (codes "exited") || eqb status (codes "abnormal"))

-- `ON CONFLICT (sid, started) DO UPDATE`
pub merged : Session → Session → Session
merged old new = record old {
  status = if is_terminal old.status then old.status else new.status;
  errors = if ltb_ℤ old.errors new.errors then new.errors else old.errors;
}

abbrev pub same_session : Bytes → ℤ → Session → Bool
same_session sid started s = eqb s.sid sid && eq_ℤ s.started started

pub put_session : Session → List Session → List Session
put_session new [] = new ∷ []
put_session new (s ∷ sessions) =
    let rest = put_session new sessions in
    if same_session new.sid new.started s then merged s new ∷ sessions else s ∷ rest

pub find_session : Bytes → ℤ → List Session → Option Session
find_session sid started [] = none
find_session sid started (s ∷ sessions) =
    if same_session sid started s then some s else find_session sid started sessions

abbrev pub same_key : RollupKey → RollupKey → Bool
same_key a b =
    eqb a.project_id b.project_id
    && (eqb a.release b.release && (eqb a.environment b.environment && eq_ℤ a.hour b.hour))

pub find_rollup : RollupKey → List Rollup → Option Rollup
find_rollup k [] = none
find_rollup k (r ∷ rollups) = if same_key r.key k then some r else find_rollup k rollups

-- one blob of loadSketches
pub load_sketch : Bytes → Result Sketch
load_sketch [] = ok empty
load_sketch (b ∷ blob) = elim (unmarshal_binary (b ∷ blob)) [
  | none ↦ err bad_sketch
  | some s ↦ ok s
]

-- the blobs of the row, which may be missing
abbrev pub distinct_blob : Option Rollup → Bytes
distinct_blob none = []
distinct_blob (some r) = r.distinct_did

abbrev pub crashed_blob : Option Rollup → Bytes
crashed_blob none = []
crashed_blob (some r) = r.crashed_did

abbrev pub one_if : Bool → ℤ
one_if b = if b then pos 1 else pos 0

-- what one session adds to its rollup, with the sketches after it
pub counted : RollupKey → Bytes → ℤ → Bytes → Bytes → Rollup
counted k status errors distinct crashed = record {
  key = k;
  total = pos 1;
  crashed = one_if (eqb status (codes "crashed"));
  abnormal = one_if (eqb status (codes "abnormal"));
  errored = one_if (eqb status (codes "ok") && ltb_ℤ (pos 0) errors);
  exited = one_if (eqb status (codes "exited"));
  distinct_did = distinct;
  crashed_did = crashed;
}

-- `ON CONFLICT … DO UPDATE SET total = session_rollups.total + 1, …`
pub added : Rollup → Rollup → Rollup
added old new = record {
  key = old.key;
  total = old.total +ℤ new.total;
  crashed = old.crashed +ℤ new.crashed;
  abnormal = old.abnormal +ℤ new.abnormal;
  errored = old.errored +ℤ new.errored;
  exited = old.exited +ℤ new.exited;
  distinct_did = new.distinct_did;
  crashed_did = new.crashed_did;
}

pub put_rollup : Rollup → List Rollup → List Rollup
put_rollup new [] = new ∷ []
put_rollup new (r ∷ rollups) =
    let rest = put_rollup new rollups in
    if same_key r.key new.key then added r new ∷ rollups else r ∷ rest

module _ (lib : Libraries) where
  -- the sketch after the device id, where it is given
  pub insert_did : Bytes → Sketch → Sketch
  insert_did did_hash s = if is_empty did_hash then s else insert lib.sha256 s did_hash

  -- the sketches read, the device merged in, the counters upserted
  pub fold_session : Session → List Rollup → Result (List Rollup)
  fold_session s rollups =
      let k : RollupKey = record {
        project_id = s.project_id;
        release = s.release;
        environment = s.environment;
        hour = lib.truncate_hour s.started;
      } in
      elim (load_sketch (distinct_blob (find_rollup k rollups))) [
        | err e ↦ err e
        | ok distinct ↦ elim (load_sketch (crashed_blob (find_rollup k rollups))) [
          | err e ↦ err e
          | ok crashed ↦ ok (
              put_rollup
                (counted k s.status s.errors (marshal_binary (insert_did s.did_hash distinct)) (
                  marshal_binary (
                    if eqb s.status (codes "crashed")
                    then insert_did s.did_hash crashed
                    else crashed)))
                rollups)
        ]
      ]

  -- the checks of the payload and its defaults
  pub session_of : Bytes → Payload → Result Session
  session_of project_id p =
      let sid : Option Bytes =
        if is_empty p.sid then some lib.fresh_uuid else lib.parse_uuid p.sid in
      if is_empty p.started then err missing_started else elim (lib.parse_time p.started) [
        | none ↦ err bad_started
        | some started ↦ if is_empty p.release then err missing_release else elim sid [
          | none ↦ err bad_sid
          | some id ↦ ok (record {
            sid = id;
            started = started;
            project_id = project_id;
            status = if is_empty p.status then codes "ok" else p.status;
            errors = p.errors;
            did_hash = if is_empty p.did then [] else lib.hash_did p.did;
            release = p.release;
            environment = if is_empty p.environment then codes "production" else p.environment;
            init = p.init;
          })
        ]
      ]

  -- storeSession; with an error the transaction is given up
  pub store_session : Bytes → Payload → Store → Result Store
  store_session project_id p st = elim (session_of project_id p) [
    | err e ↦ err e
    | ok s ↦ elim (fold_session s st.rollups) [
      | err e ↦ err e
      | ok rollups ↦ ok (record { sessions = put_session s st.sessions; rollups = rollups })
    ]
  ]
