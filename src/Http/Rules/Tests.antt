-- ===== src/Http/Rules/Tests.antt =====
-- A rule with a webhook is created, and then its webhook is taken away.
use bug_han.Prelude.{
  ℕ, ◌≡◌, refl, Bool, true, false, Option, none, some, List, [], ◌∷◌, Bytes, codes,
}
use bug_han.Prelude.Int.{pos, negsuc}
use bug_han.Alerts.{Rule, normalize_emails, email_loop, add_email, elem}
use bug_han.Ingest.Grouping.{hex, hex_digit}
use bug_han.Http.Rules.{
  RuleInput, ValidatedRule, non_empty_trimmed, lower_trimmed, is_trigger, threshold, sanitized,
  new_webhook_secret, rows_affected, Change, posted, replaced, is_web_url, validate_rule_input,
  insert_rule, create_rule, rule_from_path, replace_rule, update_valid, update_rule, handle_change,
}
use bug_han.Http.Rules.Changes.{Answers, handle_change-Answers}

abbrev url_of : Bytes → Option (Bytes × Bytes)
url_of url = some (codes "https", url)

abbrev is_uuid : Bytes → Bool
is_uuid s = true

abbrev uuid_of : Bytes → Option Bytes
uuid_of s = some s

abbrev stores : ValidatedRule → Bool
stores v = true

abbrev given : Bytes → RuleInput
given url = record {
  name = codes " errors ";
  trigger = codes "event_count";
  enabled = none;
  environments = [];
  releases = [];
  levels = codes " ERROR" ∷ codes " " ∷ [];
  threshold_count = negsuc 4;
  threshold_minutes = pos 5;
  quiet_minutes = none;
  email_to = codes "A@x.io" ∷ codes "a@x.io" ∷ [];
  webhook_url = url;
  rotate_secret = false;
}

abbrev created : ℕ × List Rule
created =
    handle_change url_of is_uuid uuid_of stores (codes "p1") []
      (posted (codes "r1") (171 ∷ []) (some (given (codes "h"))))

abbrev change : Change
change = replaced (codes "r1") (205 ∷ []) (239 ∷ []) (some (given []))

created_row : created ≡ (
  201,
  record {
    id = codes "r1";
    project_id = codes "p1";
    name = codes "errors";
    trigger = codes "event_count";
    enabled = true;
    environments = [];
    releases = [];
    levels = codes "error" ∷ [];
    threshold_count = pos 10;
    threshold_minutes = pos 5;
    quiet_minutes = pos 30;
    email_to = codes "a@x.io" ∷ [];
    webhook_url = codes "h";
    webhook_secret = codes "ab";
  }
      ∷ [],
)
unfolding handle_change create_rule validate_rule_input sanitized is_trigger threshold
    non_empty_trimmed lower_trimmed normalize_emails email_loop add_email elem is_web_url
    insert_rule new_webhook_secret hex hex_digit
created_row = refl

updated_status : (handle_change url_of is_uuid uuid_of stores (codes "p1") created.1 change).0 ≡ 200
unfolding handle_change create_rule update_rule update_valid replace_rule rule_from_path
    rows_affected validate_rule_input sanitized is_trigger threshold non_empty_trimmed lower_trimmed
    normalize_emails email_loop add_email elem is_web_url insert_rule new_webhook_secret hex
updated_status = refl

handle_change-Answers_example :
    Answers url_of is_uuid uuid_of stores created.1
      (handle_change url_of is_uuid uuid_of stores (codes "p1") created.1 change)
handle_change-Answers_example =
    handle_change-Answers url_of is_uuid uuid_of stores (codes "p1") created.1 change refl
      (handle_change-Answers url_of is_uuid uuid_of stores (codes "p1") []
        (posted (codes "r1") (171 ∷ []) (some (given (codes "h")))) refl tt).0
