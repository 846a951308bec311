-- ===== src/Worker/Alerts.antt =====
-- internal/worker/alerts.go: a stored event runs through the rules of its project; what fires is
-- delivered, recorded, and kept quiet for a while. The database is the state: the times of alert_dedupe
-- and the log alert_deliveries. Mail, HTTP and the count of an issue's events are parameters; failures
-- of the database are left out. Time is in nanoseconds.
pub mod Quiet
pub mod Log
mod Tests
use bug_han.Prelude.{
  ℕ, zero, suc, ◌+◌, ◌*◌, Bool, true, false, not, ◌&&◌, Option, none, some, List, [], ◌∷◌, ◌++◌,
  Bytes, codes, if◌then◌else◌, eqb, is_empty,
}
use bug_han.Prelude.Int.{ℤ, pos, negsuc, ◌+ℤ◌, ltb_ℤ}
use bug_han.Alerts.{Rule, Signal, should_send}

-- a row of alert_deliveries; the status is `failed` where there is an error
pub record Delivery : Type 0 where
  pub rule_id : Bytes
  pub project_id : Bytes
  pub issue_id : Bytes
  pub event_id : Bytes
  pub trigger : Bytes
  pub action : Bytes
  pub target : Bytes
  pub error : Option Bytes

-- a row of alert_dedupe
pub record Sent : Type 0 where
  pub rule_id : Bytes
  pub issue_id : Bytes
  pub last_sent_at : ℤ

pub record State : Type 0 where
  pub dedupe : List Sent
  pub deliveries : List Delivery

-- the outside world at one evaluation
pub record World : Type 0 where
  pub now : ℤ
  pub send_mail : Bytes → Option Bytes
  pub send_webhook : Bytes → Option Bytes
  pub events_within : ℤ → ℤ

-- `WHERE rule_id = $1 AND issue_id = $2`
pub last_sent : Bytes → Bytes → List Sent → Option ℤ
last_sent rule_id issue_id [] = none
last_sent rule_id issue_id (s ∷ rows) =
    if eqb s.rule_id rule_id && eqb s.issue_id issue_id
    then some s.last_sent_at
    else last_sent rule_id issue_id rows

-- the end of the quiet period after a sending
pub quiet_until : ℤ → ℤ → ℤ
quiet_until last (pos n) = last +ℤ pos (n * 60_000_000_000)
quiet_until last (negsuc n) = last

-- checkDedupe
pub check_dedupe : ℤ → Bytes → Bytes → ℤ → State → Bool
check_dedupe now rule_id issue_id quiet_minutes st =
    if not (ltb_ℤ (pos 0) quiet_minutes)
    then false
    else elim (last_sent rule_id issue_id st.dedupe) [
      | none ↦ false
      | some last ↦ ltb_ℤ now (quiet_until last quiet_minutes)
    ]

-- the upsert of touchDedupe
pub touch : ℤ → Bytes → Bytes → List Sent → List Sent
touch now rule_id issue_id [] =
    record { rule_id = rule_id; issue_id = issue_id; last_sent_at = now } ∷ []
touch now rule_id issue_id (s ∷ rows) =
    let rest = touch now rule_id issue_id rows in
    if eqb s.rule_id rule_id && eqb s.issue_id issue_id
    then (record s { last_sent_at = now }) ∷ rows
    else s ∷ rest

-- touchDedupe
pub touch_dedupe : ℤ → Bytes → Bytes → State → State
touch_dedupe now rule_id issue_id st = record st { dedupe = touch now rule_id issue_id st.dedupe }

-- recordDelivery
pub record_delivery : Rule → Signal → Bytes → Bytes → Option Bytes → State → State
record_delivery r s action target error st = record st {
  deliveries =
      st.deliveries
      ++ record {
        rule_id = r.id;
        project_id = s.project_id;
        issue_id = s.issue_id;
        event_id = s.event_id;
        trigger = r.trigger;
        action = action;
        target = target;
        error = error;
      }
        ∷ [];
}

-- the counts that deliverRule returns
pub record Counts : Type 0 where
  pub sent : ℕ
  pub failed : ℕ

pub count : Option Bytes → Counts → Counts
count none c = record c { sent = c.sent + 1 }
count (some e) c = record c { failed = c.failed + 1 }

-- the loop over the addresses
pub send_mails : World → Rule → Signal → Bytes → List Bytes → State × Counts → State × Counts
send_mails w r s action [] (st, c) = (st, c)
send_mails w r s action (to ∷ rest) (st, c) =
    send_mails w r s action rest
      (record_delivery r s action to (w.send_mail to) st, count (w.send_mail to) c)

-- deliverRule
pub deliver_rule : World → Rule → Signal → Bool → State → State × Counts
deliver_rule w r s is_test st =
    let email_action = if is_test then codes "test" else codes "email" in
    let webhook_action = if is_test then codes "test" else codes "webhook" in
    let (st', c) = send_mails w r s email_action r.email_to (st, record { sent = 0; failed = 0 }) in
    if not (is_empty r.webhook_url)
    then (
      record_delivery r s webhook_action r.webhook_url (w.send_webhook r.webhook_url) st',
      count (w.send_webhook r.webhook_url) c,
    )
    else (st', c)

-- the events within the rule's window, which only event_count asks for
pub window_count : World → Rule → ℤ
window_count w r =
    if eqb r.trigger (codes "event_count")
    then w.events_within (if ltb_ℤ (pos 0) r.threshold_minutes then r.threshold_minutes else pos 60)
    else pos 0

-- the body of the loop of EvaluateAndDeliver
pub evaluate_rule : World → Signal → Rule → State → State
evaluate_rule w s r st =
    if not (should_send r s (window_count w r))
    then st
    else if check_dedupe w.now r.id s.issue_id r.quiet_minutes st
    then st
    else touch_dedupe w.now r.id s.issue_id (deliver_rule w r s false st).0

-- EvaluateAndDeliver over the loaded rules
pub evaluate_and_deliver : World → Signal → List Rule → State → State
evaluate_and_deliver w s [] st = st
evaluate_and_deliver w s (r ∷ rules) st = evaluate_and_deliver w s rules (evaluate_rule w s r st)
