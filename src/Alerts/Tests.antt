-- ===== src/Alerts/Tests.antt =====
-- The theorems on rules and addresses at concrete inputs.
use mathlib.Core.List.{Memᴰ}
use bug_han.Prelude.{◌≡◌, ◌↔◌, true, false, List, [], ◌∷◌, Bytes, codes}
use bug_han.Prelude.Int.{pos}
use bug_han.Alerts.{Rule, Signal, should_send, elem, normalize_emails}
use bug_han.Alerts.Match.{Fires, should_send_iff}
use bug_han.Alerts.Addresses.{Keeps, IsAddress, cleaned, normalize_emails_lem}

abbrev counting : Rule
counting = record {
  id = codes "r1";
  project_id = codes "p1";
  name = [];
  trigger = codes "event_count";
  enabled = true;
  environments = codes "Production" ∷ [];
  releases = [];
  levels = [];
  threshold_count = pos 5;
  threshold_minutes = pos 10;
  quiet_minutes = pos 30;
  email_to = [];
  webhook_url = [];
  webhook_secret = [];
}

abbrev signal : Signal
signal = record {
  project_id = codes "p1";
  issue_id = codes "i1";
  event_id = codes "e1";
  is_new = false;
  is_regression = false;
  environment = codes "production";
  release = [];
  level = codes "error";
}

should_send_iff_example :
    (should_send counting signal (pos 6) ≡ true) ↔ Fires counting signal (pos 6)
should_send_iff_example = should_send_iff counting signal (pos 6)

abbrev given : List Bytes
given = codes " Ann@x.org" ∷ codes "ann@X.org" ∷ codes "nobody" ∷ codes "" ∷ []

normalize_emails_lem_example :
    Keeps given (normalize_emails given)
    × ((e : Bytes)
        → Memᴰ e given
        → IsAddress (cleaned e)
        → elem (cleaned e) (normalize_emails given) ≡ true)
normalize_emails_lem_example = normalize_emails_lem given
