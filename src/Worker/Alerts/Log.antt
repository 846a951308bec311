-- ===== src/Worker/Alerts/Log.antt =====
-- The log of deliveries and the counts that deliverRule returns agree.
use bug_han.Prelude.{
  ℕ, suc, ◌+◌, ◌≡◌, refl, ◌∙◌, sym, subst, Bool, Option, none, some, List, [], ◌∷◌, ◌++◌,
  append_assoc, append-nil, Bytes, arith, if◌then◌else◌, is_empty, Bool-cases, inl, inr, length,
}
use bug_han.Alerts.{Rule, Signal}
use bug_han.Worker.Alerts.{
  Delivery, State, World, record_delivery, Counts, count, send_mails, deliver_rule,
}

-- the rows of the log that name no error, and those that do
unfoldable pub log_counts : List Delivery → Counts
log_counts [] = record { sent = 0; failed = 0 }
log_counts (d ∷ rows) = count d.error (log_counts rows)

-- the log grew by `n` rows, and the counts by what these say
pub record Logs (before : State) (c : Counts) (n : ℕ) (after : State) (c' : Counts) : Type 0 where
  pub added : List Delivery
  pub kept : after.deliveries ≡ before.deliveries ++ added
  pub number : length added ≡ n
  pub sent : c'.sent ≡ c.sent + (log_counts added).sent
  pub failed : c'.failed ≡ c.failed + (log_counts added).failed

one :
    (o : Option Bytes) (k c : Counts)
    → ((count o c).sent + k.sent ≡ c.sent + (count o k).sent)
      × ((count o c).failed + k.failed ≡ c.failed + (count o k).failed)
unfolding count
one none k c = (omega arith, omega arith)
one (some e) k c = (omega arith, omega arith)

log_counts-one :
    (d : Delivery) (rows : List Delivery) (c : Counts)
    → ((count d.error c).sent + (log_counts rows).sent ≡ c.sent + (log_counts (d ∷ rows)).sent)
      × ((count d.error c).failed + (log_counts rows).failed
          ≡ c.failed + (log_counts (d ∷ rows)).failed)
unfolding log_counts
log_counts-one d rows c = one d.error (log_counts rows) c

nothing-Logs : (st : State) (c : Counts) → Logs st c 0 st c
nothing-Logs st c = record {
  added = [];
  kept = sym (append-nil st.deliveries);
  number = refl;
  sent = unfold log_counts in omega arith;
  failed = unfold log_counts in omega arith;
}

cons-Logs :
    (r : Rule) (s : Signal) (action target : Bytes) (o : Option Bytes) (st : State) (c : Counts)
    (n : ℕ) (after : State) (c' : Counts)
    → Logs (record_delivery r s action target o st) (count o c) n after c'
    → Logs st c (suc n) after c'
unfolding record_delivery
cons-Logs r s action target o st c n after c' l =
    let d : Delivery = record {
      rule_id = r.id;
      project_id = s.project_id;
      issue_id = s.issue_id;
      event_id = s.event_id;
      trigger = r.trigger;
      action = action;
      target = target;
      error = o;
    } in
    let (more_sent, more_failed) = log_counts-one d l.added c in
    record {
      added = d ∷ l.added;
      kept = l.kept ∙ append_assoc st.deliveries (d ∷ []) l.added;
      number = omega (arith, l.number);
      sent = l.sent ∙ more_sent;
      failed = l.failed ∙ more_failed;
    }

send_mails-Logs :
    (w : World) (r : Rule) (s : Signal) (action : Bytes) (to : List Bytes) (st : State) (c : Counts)
    (n : ℕ) (after : State) (c' : Counts)
    → Logs (send_mails w r s action to (st, c)).0 (send_mails w r s action to (st, c)).1 n after c'
    → Logs st c (length to + n) after c'
unfolding send_mails
send_mails-Logs w r s action [] st c n after c' l =
    subst (λ k. Logs st c k after c') (omega arith) l
send_mails-Logs w r s action (a ∷ to) st c n after c' l =
    subst (λ k. Logs st c k after c') (omega arith)
      (cons-Logs r s action a (w.send_mail a) st c (length to + n) after c' (
        send_mails-Logs w r s action to (record_delivery r s action a (w.send_mail a) st)
          (count (w.send_mail a) c) n after c' l))

-- Delivering a rule adds one row to the log for each address and one for the webhook, where the rule
-- has one; the counts of sent and failed deliveries are those of the rows that were added, and no
-- earlier row changes.
pub deliver_rule-Logs :
    (w : World) (r : Rule) (s : Signal) (is_test : Bool) (st : State)
    → Logs st
        (record { sent = 0; failed = 0 })
        (length r.email_to + (if is_empty r.webhook_url then 0 else 1))
        (deliver_rule w r s is_test st).0
        (deliver_rule w r s is_test st).1
unfolding deliver_rule
deliver_rule-Logs w r s is_test st = elim (Bool-cases (is_empty r.webhook_url)) [
  | inl e ↦ rw e (send_mails-Logs w r s _ r.email_to st _ 0 _ _ (nothing-Logs _ _))
  | inr e ↦ rw e (
      send_mails-Logs w r s _ r.email_to st _ 1 _ _
        (cons-Logs r s _ r.webhook_url _ _ _ 0 _ _ (nothing-Logs _ _)))
]
