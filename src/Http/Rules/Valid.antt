-- ===== src/Http/Rules/Valid.antt =====
-- What every rule of the table is.
use bug_han.Prelude.{
  ℕ, suc, ◌≡◌, ◌==◌, refl, true, false, not, ◌&&◌, Option, [], ◌∷◌, Bytes, codes, arith, ◌⊎◌, inl,
  inr, eqb, is_empty, length, Bool-cases, All,
}
use bug_han.Prelude.Int.{ℤ, pos, ltb_ℤ}
use bug_han.Alerts.{Rule}
use bug_han.Alerts.Addresses.{IsAddress, AreDistinct, normalize_emails_lem}
use bug_han.Ingest.Grouping.{hex}
use bug_han.Http.Rules.{
  RuleInput, ValidatedRule, Validated, valid, invalid, is_trigger, threshold, sanitized, row_of,
  new_webhook_secret, kept_secret, is_web_url, validate_rule_input,
}

-- a positive number, where the trigger is the number of events
abbrev pub IsThreshold : Bytes → ℤ → Type 0
IsThreshold trigger n = eqb trigger (codes "event_count") ≡ true → ltb_ℤ (pos 0) n ≡ true

module _ (parse_url : Bytes → Option (Bytes × Bytes)) where
  pub record IsRule (r : Rule) : Type 0 where
    pub trigger : is_trigger r.trigger ≡ true
    pub count : IsThreshold r.trigger r.threshold_count
    pub minutes : IsThreshold r.trigger r.threshold_minutes
    pub quiet : ltb_ℤ r.quiet_minutes (pos 0) ≡ false
    pub emails : All IsAddress r.email_to × AreDistinct r.email_to
    pub url : (is_empty r.webhook_url ≡ true) ⊎ (is_web_url parse_url r.webhook_url ≡ true)
    pub action : (length r.email_to == 0 && is_empty r.webhook_url) ≡ false
    -- a webhook is signed, and a secret stands with a webhook only
    pub signed : is_empty r.webhook_secret ≡ is_empty r.webhook_url

  -- a rule that passed, with a secret that suits its webhook
  abbrev pub Passes : ValidatedRule → Type 0
  Passes v =
      (id project_id secret : Bytes)
      → is_empty secret ≡ is_empty v.webhook_url
      → IsRule (row_of id project_id secret v)

  abbrev pub AllPass : Validated → Type 0
  AllPass (valid v) = Passes v
  AllPass (invalid message) = Unit {0}

threshold-IsThreshold :
    (trigger : Bytes) (d : ℕ) (n : ℤ) → IsThreshold trigger (threshold trigger (pos (suc d)) n)
unfolding threshold
threshold-IsThreshold trigger d n e = elim (Bool-cases (ltb_ℤ (pos 0) n)) [
  | inl p ↦ rw (e, p) p
  | inr p ↦ rw (e, p) (ground arith)
]

pub secret-there :
    (random : Bytes) → is_empty random ≡ false → is_empty (new_webhook_secret random) ≡ false
unfolding new_webhook_secret hex
secret-there [] h = h
secret-there (b ∷ random) h = refl

pub kept_secret-signs :
    (url fresh other secret : Bytes)
    → is_empty other ≡ false
    → is_empty (kept_secret url fresh other secret) ≡ is_empty url
unfolding kept_secret
kept_secret-signs url fresh other secret h = elim (Bool-cases (is_empty url)) [
  | inl e ↦ rw e refl
  | inr e ↦ elim (Bool-cases (is_empty fresh)) [
    | inr f ↦ rw (e, f) f
    | inl f ↦ elim (Bool-cases (is_empty secret)) [
      | inl s ↦ rw (e, f, s) h
      | inr s ↦ rw (e, f, s) s
    ]
  ]
]

module _ (parse_url : Bytes → Option (Bytes × Bytes)) where
  sanitized-Passes :
      (given : RuleInput)
      → is_trigger given.trigger ≡ true
      → ltb_ℤ (sanitized given).quiet_minutes (pos 0) ≡ false
      → (not (is_empty (sanitized given).webhook_url)
          && not (is_web_url parse_url (sanitized given).webhook_url))
        ≡ false
      → (length (sanitized given).email_to == 0 && is_empty (sanitized given).webhook_url) ≡ false
      → Passes parse_url (sanitized given)
  unfolding sanitized
  sanitized-Passes given t q u a id project_id secret s =
      let (kept, all) = normalize_emails_lem given.email_to in
      record {
        trigger = t;
        count = threshold-IsThreshold given.trigger 9 given.threshold_count;
        minutes = threshold-IsThreshold given.trigger 59 given.threshold_minutes;
        quiet = q;
        emails = (kept.addresses, kept.distinct);
        url = elim (Bool-cases (is_empty (sanitized given).webhook_url)) [
          | inl e ↦ inl e
          | inr e ↦ inr (ground arith)
        ];
        action = a;
        signed = s;
      }

  -- everything that validateRuleInput passes makes a good row
  pub validate-AllPass :
      (given : RuleInput) → AllPass parse_url (validate_rule_input parse_url given)
  unfolding validate_rule_input
  validate-AllPass given = elim (Bool-cases (is_trigger given.trigger)) [
    | inr t ↦ rw t tt
    | inl t ↦ elim (Bool-cases (ltb_ℤ (sanitized given).quiet_minutes (pos 0))) [
      | inl q ↦ rw (t, q) tt
      | inr q ↦
          elim (Bool-cases (
            not (is_empty (sanitized given).webhook_url)
            && not (is_web_url parse_url (sanitized given).webhook_url))) [
              | inl u ↦ rw (t, q, u) tt
              | inr u ↦
                  elim (Bool-cases (
                    length (sanitized given).email_to == 0
                    && is_empty (sanitized given).webhook_url)) [
                      | inl a ↦ rw (t, q, u, a) tt
                      | inr a ↦ rw (t, q, u, a) (sanitized-Passes given t q u a)
                    ]
            ]
    ]
  ]
