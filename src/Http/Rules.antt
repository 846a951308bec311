-- ===== src/Http/Rules.antt =====
-- internal/httpapi/alerts.go: the validation of the rules that are sent in, and the handlers that
-- change the table alert_rules, behind the guards. The rows are those of internal/alerts; who created
-- them and when is left out. The JSON decoder gives the input or nothing. Parameters: url.Parse with
-- the scheme and the host, uuid.Parse, the database's reading of a uuid, which values it stores.
pub mod Valid
pub mod Changes
mod Tests
use bug_han.Prelude.{
  ℕ, ◌==◌, Bool, true, false, not, ◌&&◌, ◌||◌, Option, none, some, List, [], ◌∷◌, ◌++◌, Bytes,
  codes, if◌then◌else◌, eqb, is_empty, trim_space, to_lower, length, suc,
}
use bug_han.Prelude.Int.{ℤ, pos, negsuc, ltb_ℤ}
use bug_han.Alerts.{Rule, normalize_emails}
use bug_han.Ingest.Grouping.{hex}

-- ruleInput
pub record RuleInput : Type 0 where
  pub name : Bytes
  pub trigger : Bytes
  pub enabled : Option Bool
  pub environments : List Bytes
  pub releases : List Bytes
  pub levels : List Bytes
  pub threshold_count : ℤ
  pub threshold_minutes : ℤ
  pub quiet_minutes : Option ℤ
  pub email_to : List Bytes
  pub webhook_url : Bytes
  pub rotate_secret : Bool

-- validatedRule
pub record ValidatedRule : Type 0 where
  pub name : Bytes
  pub trigger : Bytes
  pub enabled : Bool
  pub environments : List Bytes
  pub releases : List Bytes
  pub levels : List Bytes
  pub threshold_count : ℤ
  pub threshold_minutes : ℤ
  pub quiet_minutes : ℤ
  pub email_to : List Bytes
  pub webhook_url : Bytes

-- what validateRuleInput returns: a rule or a message
pub data Validated : Type 0 where
  valid : ValidatedRule → Validated
  invalid : Bytes → Validated

-- nonEmptyTrimmed
pub non_empty_trimmed : List Bytes → List Bytes
non_empty_trimmed [] = []
non_empty_trimmed (v ∷ given) =
    let rest = non_empty_trimmed given in
    if is_empty (trim_space v) then rest else trim_space v ∷ rest

-- lowerTrimmed
pub lower_trimmed : List Bytes → List Bytes
lower_trimmed [] = []
lower_trimmed (v ∷ given) =
    let rest = lower_trimmed given in
    if is_empty (to_lower (trim_space v)) then rest else to_lower (trim_space v) ∷ rest

-- a field that may be absent
abbrev pub given_or {ℓ} : {A : Type ℓ} → A → Option A → A
given_or d none = d
given_or d (some a) = a

-- the switch on the trigger
pub is_trigger : Bytes → Bool
is_trigger t =
    eqb t (codes "new_issue") || eqb t (codes "regression") || eqb t (codes "event_count")

-- a threshold of event_count, where it is not positive
pub threshold : Bytes → ℤ → ℤ → ℤ
threshold trigger d n = if eqb trigger (codes "event_count") && not (ltb_ℤ (pos 0) n) then d else n

-- the fields of `out`
pub sanitized : RuleInput → ValidatedRule
sanitized given = record {
  name = trim_space given.name;
  trigger = given.trigger;
  enabled = given_or true given.enabled;
  environments = non_empty_trimmed given.environments;
  releases = non_empty_trimmed given.releases;
  levels = lower_trimmed given.levels;
  threshold_count = threshold given.trigger (pos 10) given.threshold_count;
  threshold_minutes = threshold given.trigger (pos 60) given.threshold_minutes;
  quiet_minutes = given_or (pos 30) given.quiet_minutes;
  email_to = normalize_emails given.email_to;
  webhook_url = trim_space given.webhook_url;
}

-- the row of a rule
abbrev pub row_of : Bytes → Bytes → Bytes → ValidatedRule → Rule
row_of id project_id secret v = record {
  id = id;
  project_id = project_id;
  name = v.name;
  trigger = v.trigger;
  enabled = v.enabled;
  environments = v.environments;
  releases = v.releases;
  levels = v.levels;
  threshold_count = v.threshold_count;
  threshold_minutes = v.threshold_minutes;
  quiet_minutes = v.quiet_minutes;
  email_to = v.email_to;
  webhook_url = v.webhook_url;
  webhook_secret = secret;
}

-- newWebhookSecret, of the random bytes
pub new_webhook_secret : Bytes → Bytes
new_webhook_secret random = hex random

-- `id = $1 AND project_id = $2`
abbrev pub is_rule : Bytes → Bytes → Rule → Bool
is_rule id project_id r = eqb r.id id && eqb r.project_id project_id

-- the CASE of the secret, with $14 and $15
pub kept_secret : Bytes → Bytes → Bytes → Bytes → Bytes
kept_secret url fresh other secret =
    if is_empty url
    then []
    else if not (is_empty fresh)
    then fresh
    else if is_empty secret
    then other
    else secret

-- the UPDATE of handleUpdateRule
pub update_rules : Bytes → Bytes → ValidatedRule → Bytes → Bytes → List Rule → List Rule
update_rules id project_id v fresh other [] = []
update_rules id project_id v fresh other (r ∷ rules) =
    let rest = update_rules id project_id v fresh other rules in
    if is_rule id project_id r
    then row_of r.id r.project_id (kept_secret v.webhook_url fresh other r.webhook_secret) v ∷ rest
    else r ∷ rest

-- the rows it affects
pub rows_affected : Bytes → Bytes → List Rule → ℕ
rows_affected id project_id [] = 0
rows_affected id project_id (r ∷ rules) =
    let rest = rows_affected id project_id rules in
    if is_rule id project_id r then suc rest else rest

-- `DELETE FROM alert_rules WHERE id = $1`
pub delete_rules : Bytes → List Rule → List Rule
delete_rules id [] = []
delete_rules id (r ∷ rules) =
    let rest = delete_rules id rules in if eqb r.id id then rest else r ∷ rest

-- a change that is sent in: the input where it is decoded, the id in the path, the random bytes
pub data Change : Type 0 where
  posted : (id random : Bytes) → Option RuleInput → Change
  replaced : (path random random' : Bytes) → Option RuleInput → Change
  removed : (path : Bytes) → Change

module _ (parse_url : Bytes → Option (Bytes × Bytes)) where
  -- the test of the address of a webhook
  pub is_web_url : Bytes → Bool
  is_web_url url = elim (parse_url url) [
    | none ↦ false
    | some (scheme, host) ↦
        (eqb scheme (codes "http") || eqb scheme (codes "https")) && not (is_empty host)
  ]

  -- validateRuleInput
  pub validate_rule_input : RuleInput → Validated
  validate_rule_input given =
      let out = sanitized given in
      if not (is_trigger given.trigger)
      then invalid (codes "trigger must be new_issue, regression or event_count")
      else if ltb_ℤ out.quiet_minutes (pos 0)
      then invalid (codes "quiet_minutes must be >= 0 (0 disables the quiet period)")
      else if not (is_empty out.webhook_url) && not (is_web_url out.webhook_url)
      then invalid (codes "webhook_url must be an http(s) URL")
      else if length out.email_to == 0 && is_empty out.webhook_url
      then invalid (codes "rule needs at least one action: email_to or webhook_url")
      else valid out

module _ (stores : ValidatedRule → Bool) where
  -- the INSERT of handleCreateRule, with the status of the answer
  pub insert_rule : Bytes → Bytes → Bytes → List Rule → Validated → ℕ × List Rule
  insert_rule project_id id random rules (invalid message) = (400, rules)
  insert_rule project_id id random rules (valid v) =
      let secret = if is_empty v.webhook_url then [] else new_webhook_secret random in
      if stores v then (201, rules ++ row_of id project_id secret v ∷ []) else (500, rules)

-- the rest of handleDeleteRule, for the rule of the path
pub delete_found : List Rule → Option Bytes → ℕ × List Rule
delete_found rules none = (404, rules)
delete_found rules (some id) = (204, delete_rules id rules)

module _ (parse_uuid : Bytes → Bool) (uuid_of : Bytes → Option Bytes) where
  -- ruleFromPath
  pub rule_from_path : Bytes → Bytes → List Rule → Option Bytes
  rule_from_path path project_id rules =
      if parse_uuid path
      then elim (uuid_of path) [
        | none ↦ none
        | some id ↦ if rows_affected id project_id rules == 0 then none else some id
      ]
      else none

  -- handleDeleteRule
  pub delete_rule : Bytes → Bytes → List Rule → ℕ × List Rule
  delete_rule project_id path rules = delete_found rules (rule_from_path path project_id rules)

module _ (parse_url : Bytes → Option (Bytes × Bytes)) (parse_uuid : Bytes → Bool)
    (uuid_of : Bytes → Option Bytes) (stores : ValidatedRule → Bool) where
  -- handleCreateRule
  pub create_rule : Bytes → Bytes → Bytes → List Rule → Option RuleInput → ℕ × List Rule
  create_rule project_id id random rules none = (400, rules)
  create_rule project_id id random rules (some given) =
      insert_rule stores project_id id random rules (validate_rule_input parse_url given)

  -- the rest of handleUpdateRule, for the rule of the path
  pub replace_rule :
      Bytes → Bool → Bytes → Bytes → ValidatedRule → List Rule → Option Bytes → ℕ × List Rule
  replace_rule project_id rotate random random' v rules none = (404, rules)
  replace_rule project_id rotate random random' v rules (some id) =
      let fresh =
        if not (is_empty v.webhook_url) && rotate then new_webhook_secret random else [] in
      if stores v
      then if rows_affected id project_id rules == 0
        then (404, rules)
        else (200, update_rules id project_id v fresh (new_webhook_secret random') rules)
      else (500, rules)

  -- handleUpdateRule, behind the decoder
  pub update_valid : Bytes → Bytes → Bool → Bytes → Bytes → List Rule → Validated → ℕ × List Rule
  update_valid project_id path rotate random random' rules (invalid message) = (400, rules)
  update_valid project_id path rotate random random' rules (valid v) =
      replace_rule project_id rotate random random' v rules
        (rule_from_path parse_uuid uuid_of path project_id rules)

  -- handleUpdateRule
  pub update_rule : Bytes → Bytes → Bytes → Bytes → List Rule → Option RuleInput → ℕ × List Rule
  update_rule project_id path random random' rules none = (400, rules)
  update_rule project_id path random random' rules (some given) =
      update_valid project_id path given.rotate_secret random random' rules
        (validate_rule_input parse_url given)

  -- the handler of a change, for the project of the path
  pub handle_change : Bytes → List Rule → Change → ℕ × List Rule
  handle_change project_id rules (posted id random given) =
      create_rule project_id id random rules given
  handle_change project_id rules (replaced path random random' given) =
      update_rule project_id path random random' rules given
  handle_change project_id rules (removed path) =
      delete_rule parse_uuid uuid_of project_id path rules
