-- ===== src/Http/Rules/Changes.antt =====
-- The table of rules through the handlers that change it.
use bug_han.Prelude.{
  ℕ, ◌≡◌, ◌==◌, refl, sym, ◌∙◌, Bool, true, false, Option, none, some, List, [], ◌∷◌, Bytes, arith,
  inl, inr, eqb, is_empty, leb, Bool-cases, All, All-append,
}
use bug_han.Alerts.{Rule}
use bug_han.Http.Rules.{
  RuleInput, ValidatedRule, Validated, valid, invalid, row_of, new_webhook_secret, is_rule,
  kept_secret, update_rules, delete_rules, rows_affected, Change, posted, replaced, removed,
  validate_rule_input, insert_rule, create_rule, rule_from_path, replace_rule, update_valid,
  update_rule, delete_rule, delete_found, handle_change,
}
use bug_han.Http.Rules.Valid.{
  IsRule, Passes, AllPass, secret-there, kept_secret-signs, validate-AllPass,
}

module _ (parse_url : Bytes → Option (Bytes × Bytes)) (parse_uuid : Bytes → Bool)
    (uuid_of : Bytes → Option Bytes) (stores : ValidatedRule → Bool) where
  update_rules-AreRules :
      (id project_id : Bytes) (v : ValidatedRule) (fresh other : Bytes) (rules : List Rule)
      → Passes parse_url v
      → is_empty other ≡ false
      → All (IsRule parse_url) rules
      → All (IsRule parse_url) (update_rules id project_id v fresh other rules)
  unfolding update_rules
  update_rules-AreRules id project_id v fresh other [] p o h = tt
  update_rules-AreRules id project_id v fresh other (r ∷ rules) p o (hr, h) =
      let rest = update_rules-AreRules id project_id v fresh other rules p o h in
      elim (Bool-cases (is_rule id project_id r)) [
        | inl e ↦ rw e (
          p r.id r.project_id (kept_secret v.webhook_url fresh other r.webhook_secret)
              (kept_secret-signs v.webhook_url fresh other r.webhook_secret o),
          rest,
        )
        | inr e ↦ rw e (hr, rest)
      ]

  delete_rules-AreRules :
      (id : Bytes) (rules : List Rule)
      → All (IsRule parse_url) rules
      → All (IsRule parse_url) (delete_rules id rules)
  unfolding delete_rules
  delete_rules-AreRules id [] h = tt
  delete_rules-AreRules id (r ∷ rules) (hr, h) = elim (Bool-cases (eqb r.id id)) [
    | inl e ↦ rw e (delete_rules-AreRules id rules h)
    | inr e ↦ rw e (hr, delete_rules-AreRules id rules h)
  ]

  insert_rule-AreRules :
      (project_id id random : Bytes) (rules : List Rule) (o : Validated)
      → AllPass parse_url o
      → is_empty random ≡ false
      → All (IsRule parse_url) rules
      → All (IsRule parse_url) (insert_rule stores project_id id random rules o).1
  unfolding insert_rule
  insert_rule-AreRules project_id id random rules (invalid m) p o h = h
  insert_rule-AreRules project_id id random rules (valid v) p o h = elim (Bool-cases (stores v)) [
    | inr s ↦ rw s h
    | inl s ↦ elim (Bool-cases (is_empty v.webhook_url)) [
      | inl e ↦
          rw (s, e)
            (All-append (IsRule parse_url) rules (row_of id project_id [] v ∷ []) h
              (p id project_id [] (sym e), tt))
      | inr e ↦
          rw (s, e)
            (All-append (IsRule parse_url) rules
              (row_of id project_id (new_webhook_secret random) v ∷ []) h
              (p id project_id (new_webhook_secret random) (secret-there random o ∙ sym e), tt))
    ]
  ]

  -- what a handler answers: a table of rules, and the table as it was where it answers an error
  abbrev pub Answers : List Rule → ℕ × List Rule → Type 0
  Answers rules o = All (IsRule parse_url) o.1 × (leb 400 o.0 ≡ true → o.1 ≡ rules)

  refused-Answers :
      (status : ℕ) (rules : List Rule)
      → All (IsRule parse_url) rules
      → Answers rules (status, rules)
  refused-Answers status rules h = (h, λ e. refl)

  insert_rule-error :
      (project_id id random : Bytes) (rules : List Rule) (o : Validated)
      → leb 400 (insert_rule stores project_id id random rules o).0 ≡ true
      → (insert_rule stores project_id id random rules o).1 ≡ rules
  unfolding insert_rule
  insert_rule-error project_id id random rules (invalid m) e = refl
  insert_rule-error project_id id random rules (valid v) e = elim (Bool-cases (stores v)) [
    | inr s ↦ rw s refl
    | inl s ↦ absurd (ground arith)
  ]

  insert_rule-Answers :
      (project_id id random : Bytes) (rules : List Rule) (o : Validated)
      → AllPass parse_url o
      → is_empty random ≡ false
      → All (IsRule parse_url) rules
      → Answers rules (insert_rule stores project_id id random rules o)
  insert_rule-Answers project_id id random rules o p e h = (
    insert_rule-AreRules project_id id random rules o p e h,
    insert_rule-error project_id id random rules o,
  )

  create_rule-Answers :
      (project_id id random : Bytes) (rules : List Rule) (given : Option RuleInput)
      → is_empty random ≡ false
      → All (IsRule parse_url) rules
      → Answers rules
          (create_rule parse_url parse_uuid uuid_of stores project_id id random rules given)
  unfolding create_rule
  create_rule-Answers project_id id random rules none e h = refused-Answers 400 rules h
  create_rule-Answers project_id id random rules (some given) e h =
      insert_rule-Answers project_id id random rules (validate_rule_input parse_url given)
        (validate-AllPass parse_url given) e h

  replace_rule-Answers :
      (project_id : Bytes) (rotate : Bool) (random random' : Bytes) (v : ValidatedRule)
      (rules : List Rule) (o : Option Bytes)
      → Passes parse_url v
      → is_empty random' ≡ false
      → All (IsRule parse_url) rules
      → Answers rules (
          replace_rule parse_url parse_uuid uuid_of stores project_id rotate random random' v rules
            o)
  unfolding replace_rule
  replace_rule-Answers project_id rotate random random' v rules none p e h =
      refused-Answers 404 rules h
  replace_rule-Answers project_id rotate random random' v rules (some id) p e h =
      elim (Bool-cases (stores v)) [
        | inr s ↦ rw s (refused-Answers 500 rules h)
        | inl s ↦ elim (Bool-cases (rows_affected id project_id rules == 0)) [
          | inl z ↦ rw (s, z) (refused-Answers 404 rules h)
          | inr z ↦
              rw (s, z)
                (
                  update_rules-AreRules id project_id v _ (new_webhook_secret random') rules p
                      (secret-there random' e) h,
                  λ err. absurd (ground (arith, err)),
                )
        ]
      ]

  update_valid-Answers :
      (project_id path : Bytes) (rotate : Bool) (random random' : Bytes) (rules : List Rule)
      (o : Validated)
      → AllPass parse_url o
      → is_empty random' ≡ false
      → All (IsRule parse_url) rules
      → Answers rules (
          update_valid parse_url parse_uuid uuid_of stores project_id path rotate random random'
            rules o)
  unfolding update_valid
  update_valid-Answers project_id path rotate random random' rules (invalid m) p e h =
      refused-Answers 400 rules h
  update_valid-Answers project_id path rotate random random' rules (valid v) p e h =
      replace_rule-Answers project_id rotate random random' v rules
        (rule_from_path parse_uuid uuid_of path project_id rules) p e h

  update_rule-Answers :
      (project_id path random random' : Bytes) (rules : List Rule) (given : Option RuleInput)
      → is_empty random' ≡ false
      → All (IsRule parse_url) rules
      → Answers rules (
          update_rule parse_url parse_uuid uuid_of stores project_id path random random' rules
            given)
  unfolding update_rule
  update_rule-Answers project_id path random random' rules none e h = refused-Answers 400 rules h
  update_rule-Answers project_id path random random' rules (some given) e h =
      update_valid-Answers project_id path given.rotate_secret random random' rules
        (validate_rule_input parse_url given) (validate-AllPass parse_url given) e h

  delete_found-Answers :
      (rules : List Rule) (o : Option Bytes)
      → All (IsRule parse_url) rules
      → Answers rules (delete_found rules o)
  unfolding delete_found
  delete_found-Answers rules none h = refused-Answers 404 rules h
  delete_found-Answers rules (some id) h =
      (delete_rules-AreRules id rules h, λ e. absurd (ground (arith, e)))

  delete_rule-Answers :
      (project_id path : Bytes) (rules : List Rule)
      → All (IsRule parse_url) rules
      → Answers rules (delete_rule parse_uuid uuid_of project_id path rules)
  unfolding delete_rule
  delete_rule-Answers project_id path rules h =
      delete_found-Answers rules (rule_from_path parse_uuid uuid_of path project_id rules) h

  -- the random bytes of a change are there
  abbrev pub HasRandom : Change → Type 0
  HasRandom (posted id random given) = is_empty random ≡ false
  HasRandom (replaced path random random' given) = is_empty random' ≡ false
  HasRandom (removed path) = Unit {0}

  -- Where the random bytes drawn for a secret are there, and every rule of the table has one of the
  -- three triggers, positive thresholds if it counts events, a quiet period that is not negative,
  -- distinct addresses that are not empty and have an at sign, a webhook that is an http or https
  -- address with a host, an address or a webhook at all, and a secret exactly where it has a webhook:
  -- this is so after any change that is sent in, be it a creation, a replacement or a deletion,
  -- accepted or not; and where the answer is an error, the table is as it was.
  pub handle_change-Answers :
      (project_id : Bytes) (rules : List Rule) (c : Change)
      → HasRandom c
      → All (IsRule parse_url) rules
      → Answers rules (handle_change parse_url parse_uuid uuid_of stores project_id rules c)
  unfolding handle_change
  handle_change-Answers project_id rules (posted id random given) e h =
      create_rule-Answers project_id id random rules given e h
  handle_change-Answers project_id rules (replaced path random random' given) e h =
      update_rule-Answers project_id path random random' rules given e h
  handle_change-Answers project_id rules (removed path) e h =
      delete_rule-Answers project_id path rules h
