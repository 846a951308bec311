-- ===== src/Worker/Alerts/Quiet.antt =====
-- After a rule fires for an issue, nothing is sent for both within the rule's quiet period.
use bug_han.Prelude.{
  ℕ, ◌*◌, ◌<◌, ◌≡◌, refl, ◌∙◌, sym, subst, Bool, true, false, ◌&&◌, some, List, [], ◌∷◌, Bytes,
  arith, eqb, eqb_refl, is_empty, Bool-cases, All, inl, inr,
}
use bug_han.Prelude.Int.{ℤ, pos, ◌≤ℤ◌, ◌<ℤ◌, +ℤ_parts}
use bug_han.Alerts.{Rule, Signal, should_send}
use bug_han.Worker.Alerts.{
  Sent, State, World, last_sent, quiet_until, check_dedupe, touch, touch_dedupe, record_delivery,
  Counts, count, send_mails, deliver_rule, window_count, evaluate_rule, evaluate_and_deliver,
}

-- the pair was sent for at the time `t` or later
pub record SentSince (t : ℤ) (rule_id issue_id : Bytes) (st : State) : Type 0 where
  pub last : ℤ
  pub found : last_sent rule_id issue_id st.dedupe ≡ some last
  pub since : t ≤ℤ last

touch-last_sent :
    (now : ℤ) (r i : Bytes) (rows : List Sent) → last_sent r i (touch now r i rows) ≡ some now
unfolding touch last_sent
touch-last_sent now r i [] = rw (eqb_refl r, eqb_refl i) refl
touch-last_sent now r i (s ∷ rows) = elim (Bool-cases (eqb s.rule_id r && eqb s.issue_id i)) [
  | inl same ↦ rw (same, same) refl
  | inr other ↦ rw (other, other) (touch-last_sent now r i rows)
]

-- a touch of any pair leaves what was sent for, or makes it later
touch-SentSince :
    (t now : ℤ) (r i r' i' : Bytes) (rows : List Sent) (last : ℤ)
    → t ≤ℤ now
    → last_sent r i rows ≡ some last
    → t ≤ℤ last
    → (last' : ℤ) × (last_sent r i (touch now r' i' rows) ≡ some last') × (t ≤ℤ last')
unfolding touch last_sent
touch-SentSince t now r i r' i' [] last late found since = absurd (ground arith)
touch-SentSince t now r i r' i' (s ∷ rows) last late found since =
    elim (Bool-cases (eqb s.rule_id r' && eqb s.issue_id i')) [
      | inl touched ↦ rw touched (elim (Bool-cases (eqb s.rule_id r && eqb s.issue_id i)) [
        | inl same ↦ rw same (now, refl, late)
        | inr other ↦ rw other (last, rw other at found, since)
      ])
      | inr kept ↦ rw kept (elim (Bool-cases (eqb s.rule_id r && eqb s.issue_id i)) [
        | inl same ↦ rw same (last, rw same at found, since)
        | inr other ↦
            rw other (touch-SentSince t now r i r' i' rows last late (rw other at found) since)
      ])
    ]

send_mails-dedupe :
    (w : World) (r : Rule) (s : Signal) (action : Bytes) (to : List Bytes) (st : State) (c : Counts)
    → (send_mails w r s action to (st, c)).0.dedupe ≡ st.dedupe
unfolding send_mails
send_mails-dedupe w r s action [] st c = refl
send_mails-dedupe w r s action (a ∷ to) st c =
    send_mails-dedupe w r s action to (record_delivery r s action a (w.send_mail a) st)
      (count (w.send_mail a) c)
    ∙ (unfold record_delivery in refl)

deliver_rule-dedupe :
    (w : World) (r : Rule) (s : Signal) (is_test : Bool) (st : State)
    → (deliver_rule w r s is_test st).0.dedupe ≡ st.dedupe
unfolding deliver_rule
deliver_rule-dedupe w r s is_test st = elim (Bool-cases (is_empty r.webhook_url)) [
  | inl e ↦ rw e (send_mails-dedupe w r s _ r.email_to st _)
  | inr e ↦ rw e (unfold record_delivery in send_mails-dedupe w r s _ r.email_to st _)
]

evaluate_rule-SentSince :
    (t : ℤ) (r i : Bytes) (w : World) (s : Signal) (rule : Rule) (st : State)
    → t ≤ℤ w.now
    → SentSince t r i st
    → SentSince t r i (evaluate_rule w s rule st)
unfolding evaluate_rule touch_dedupe
evaluate_rule-SentSince t r i w s rule st late h =
    elim (Bool-cases (should_send rule s (window_count w rule))) [
      | inr e ↦ rw e h
      | inl e ↦
          rw e (elim (Bool-cases (check_dedupe w.now rule.id s.issue_id rule.quiet_minutes st)) [
            | inl d ↦ rw d h
            | inr d ↦
                rw (d, deliver_rule-dedupe w rule s false st)
                  (let (last, found, since) =
                      touch-SentSince t w.now r i rule.id s.issue_id st.dedupe h.last late h.found
                        h.since in
                    record { last = last; found = found; since = since })
          ])
    ]

evaluate-SentSince :
    (t : ℤ) (r i : Bytes) (w : World) (s : Signal) (rules : List Rule) (st : State)
    → t ≤ℤ w.now
    → SentSince t r i st
    → SentSince t r i (evaluate_and_deliver w s rules st)
unfolding evaluate_and_deliver
evaluate-SentSince t r i w s [] st late h = h
evaluate-SentSince t r i w s (rule ∷ rules) st late h =
    evaluate-SentSince t r i w s rules (evaluate_rule w s rule st) late
      (evaluate_rule-SentSince t r i w s rule st late h)

-- jobs that the worker runs one after the other: the world, the signal and the rules of each
abbrev pub Evaluations : Type 0
Evaluations = List (World × Signal × List Rule)

pub run : Evaluations → State → State
run [] st = st
run ((w, s, rules) ∷ later) st = run later (evaluate_and_deliver w s rules st)

run-SentSince :
    (t : ℤ) (r i : Bytes) (later : Evaluations) (st : State)
    → All (λ e. t ≤ℤ e.0.now) later
    → SentSince t r i st
    → SentSince t r i (run later st)
unfolding run
run-SentSince t r i [] st late h = h
run-SentSince t r i ((w, s, rules) ∷ later) st (l, late) h =
    run-SentSince t r i later (evaluate_and_deliver w s rules st) late
      (evaluate-SentSince t r i w s rules st l h)

fired-SentSince :
    (w : World) (s : Signal) (r : Rule) (st : State)
    → should_send r s (window_count w r) ≡ true
    → check_dedupe w.now r.id s.issue_id r.quiet_minutes st ≡ false
    → SentSince w.now r.id s.issue_id (evaluate_rule w s r st)
unfolding evaluate_rule touch_dedupe
fired-SentSince w s r st fires loud =
    rw (fires, loud)
      (record {
        last = w.now;
        found = touch-last_sent w.now r.id s.issue_id _;
        since = omega arith;
      })

later_quiet :
    (t last now : ℤ) (q : ℕ)
    → t ≤ℤ last
    → now <ℤ quiet_until t (pos q)
    → now <ℤ quiet_until last (pos q)
unfolding quiet_until
later_quiet t last now q since before =
    omega (arith, +ℤ_parts t (pos (q * 60_000_000_000)), +ℤ_parts last (pos (q * 60_000_000_000)))

silent :
    (t now : ℤ) (r i : Bytes) (q : ℕ) (st : State)
    → 0 < q
    → SentSince t r i st
    → now <ℤ quiet_until t (pos q)
    → check_dedupe now r i (pos q) st ≡ true
unfolding check_dedupe
silent t now r i q st some_quiet h before =
    rw h.found (ground (arith, later_quiet t h.last now q h.since before))

deduped :
    (w : World) (s : Signal) (r : Rule) (st : State)
    → check_dedupe w.now r.id s.issue_id r.quiet_minutes st ≡ true
    → evaluate_rule w s r st ≡ st
unfolding evaluate_rule
deduped w s r st e = elim (Bool-cases (should_send r s (window_count w r))) [
  | inl f ↦ rw (f, e) refl
  | inr f ↦ rw f refl
]

-- Once a rule with a quiet period fires for an issue, and whatever jobs run at that time or later, an
-- evaluation of the rule for the issue within the quiet period changes nothing: no delivery is
-- attempted or recorded.
pub quiet_period :
    (w w' : World) (s s' : Signal) (r : Rule) (q : ℕ) (later : Evaluations) (st : State)
    → r.quiet_minutes ≡ pos q
    → 0 < q
    → should_send r s (window_count w r) ≡ true
    → check_dedupe w.now r.id s.issue_id r.quiet_minutes st ≡ false
    → All (λ e. w.now ≤ℤ e.0.now) later
    → s'.issue_id ≡ s.issue_id
    → w'.now <ℤ quiet_until w.now (pos q)
    → evaluate_rule w' s' r (run later (evaluate_rule w s r st))
      ≡ run later (evaluate_rule w s r st)
quiet_period w w' s s' r q later st minutes some_quiet fires loud late same before =
    let since : SentSince w.now r.id s.issue_id (run later (evaluate_rule w s r st)) =
      run-SentSince w.now r.id s.issue_id later (evaluate_rule w s r st) late
        (fired-SentSince w s r st fires loud) in
    let quiet =
      silent w.now w'.now r.id s.issue_id q (run later (evaluate_rule w s r st)) some_quiet since
        before in
    deduped w' s' r (run later (evaluate_rule w s r st)) (
      subst
        (λ i.
          check_dedupe w'.now r.id i r.quiet_minutes (run later (evaluate_rule w s r st)) ≡ true)
        (sym same)
        (subst
          (λ z. check_dedupe w'.now r.id s.issue_id z (run later (evaluate_rule w s r st)) ≡ true)
          (sym minutes) quiet))
