-- ===== src/Worker/Alerts/Tests.antt =====
-- The quiet period at a rule that fires.
use bug_han.Prelude.{◌≡◌, refl, true, false, Option, none, some, List, [], ◌∷◌, Bytes, codes, arith}
use bug_han.Prelude.Int.{pos}
use bug_han.Alerts.{
  Rule, Signal, should_send, matches_filters, matches_trigger, excludes, contains_fold,
}
use bug_han.Worker.Alerts.{
  State, World, deliver_rule, evaluate_rule, check_dedupe, last_sent, window_count, quiet_until,
}
use bug_han.Worker.Alerts.Log.{Logs, deliver_rule-Logs}
use bug_han.Worker.Alerts.Quiet.{run, quiet_period}

abbrev rule : Rule
rule = record {
  id = codes "r1";
  project_id = codes "p1";
  name = [];
  trigger = codes "new_issue";
  enabled = true;
  environments = [];
  releases = [];
  levels = codes "Error" ∷ [];
  threshold_count = pos 0;
  threshold_minutes = pos 0;
  quiet_minutes = pos 30;
  email_to = codes "a@b.c" ∷ [];
  webhook_url = [];
  webhook_secret = [];
}

abbrev signal : Signal
signal = record {
  project_id = codes "p1";
  issue_id = codes "i1";
  event_id = codes "e1";
  is_new = true;
  is_regression = false;
  environment = codes "production";
  release = [];
  level = codes "error";
}

abbrev world : World
world = record {
  now = pos 1_000;
  send_mail = λ to. none;
  send_webhook = λ url. none;
  events_within = λ mins. pos 1;
}

abbrev soon : World
soon = record world { now = pos 60_000_000_000 }

abbrev start : State
start = record { dedupe = []; deliveries = [] }

rule_fires : should_send rule signal (window_count world rule) ≡ true
unfolding should_send matches_filters matches_trigger excludes contains_fold
rule_fires = refl

rule_is_loud : check_dedupe (pos 1_000) (codes "r1") (codes "i1") (pos 30) start ≡ false
unfolding check_dedupe last_sent
rule_is_loud = refl

quiet_period_example :
    evaluate_rule soon signal rule
      (run ((soon, signal, rule ∷ []) ∷ []) (evaluate_rule world signal rule start))
    ≡ run ((soon, signal, rule ∷ []) ∷ []) (evaluate_rule world signal rule start)
unfolding quiet_until bug_han.Prelude.Int.◌+ℤ◌
quiet_period_example =
    quiet_period world soon signal signal rule 30 ((soon, signal, rule ∷ []) ∷ []) start refl
      (omega arith) rule_fires rule_is_loud (omega arith, tt) refl (omega arith)

deliver_rule-Logs_example :
    Logs start
      (record { sent = 0; failed = 0 })
      1
      (deliver_rule world rule signal false start).0
      (deliver_rule world rule signal false start).1
deliver_rule-Logs_example = deliver_rule-Logs world rule signal false start
