-- ===== src/Alerts.antt =====
-- internal/alerts/alerts.go: the rules, the signals they match, and the addresses of a rule. The HMAC
-- is a parameter. Letter case is that of ASCII.
pub mod Match
pub mod Addresses
mod Tests
use bug_han.Prelude.{
  ℕ, ◌≤◌, Bool, true, false, not, ◌&&◌, ◌||◌, List, [], ◌∷◌, ◌++◌, Bytes, codes, ltb, leb,
  if◌then◌else◌, eqb, is_empty, trim_space, to_lower, contains, length, ◌==◌,
}
use bug_han.Prelude.Int.{ℤ, pos, negsuc, ltb_ℤ}

-- Rule
pub record Rule : Type 0 where
  pub id : Bytes
  pub project_id : Bytes
  pub name : Bytes
  pub trigger : Bytes
  pub enabled : Bool
  pub environments : List Bytes
  pub releases : List Bytes
  pub levels : List Bytes
  pub threshold_count : ℤ
  pub threshold_minutes : ℤ
  pub quiet_minutes : ℤ
  pub email_to : List Bytes
  pub webhook_url : Bytes
  pub webhook_secret : Bytes

-- Signal
pub record Signal : Type 0 where
  pub project_id : Bytes
  pub issue_id : Bytes
  pub event_id : Bytes
  pub is_new : Bool
  pub is_regression : Bool
  pub environment : Bytes
  pub release : Bytes
  pub level : Bytes

-- containsFold
unfoldable pub contains_fold : List Bytes → Bytes → Bool
contains_fold [] v = false
contains_fold (e ∷ list) v = eqb (to_lower e) (to_lower v) || contains_fold list v

-- the guard of one filter: `len(list) > 0 && !containsFold(list, v)`
unfoldable pub excludes : List Bytes → Bytes → Bool
excludes list v = not (length list == 0) && not (contains_fold list v)

-- MatchesFilters
unfoldable pub matches_filters : Rule → Signal → Bool
matches_filters r s =
    if excludes r.environments s.environment
    then false
    else if excludes r.releases s.release
    then false
    else if excludes r.levels s.level
    then false
    else true

-- MatchesTrigger
unfoldable pub matches_trigger : Rule → Signal → ℤ → Bool
matches_trigger r s event_count_window =
    if eqb r.trigger (codes "new_issue")
    then s.is_new
    else if eqb r.trigger (codes "regression")
    then s.is_regression
    else if eqb r.trigger (codes "event_count")
    then not (
        ltb_ℤ event_count_window
          (if ltb_ℤ (pos 0) r.threshold_count then r.threshold_count else pos 1))
    else false

-- ShouldSend
unfoldable pub should_send : Rule → Signal → ℤ → Bool
should_send r s event_count_window =
    if r.enabled then matches_filters r s && matches_trigger r s event_count_window else false

unfoldable pub elem : Bytes → List Bytes → Bool
elem e [] = false
elem e (f ∷ seen) = eqb f e || elem e seen

-- the body of the loop of NormalizeEmails; the keys of `seen` are the addresses of `out`
unfoldable pub add_email : List Bytes → Bytes → List Bytes
add_email out given =
    let e = to_lower (trim_space given) in
    if is_empty e || elem e out
    then out
    else if not (contains e (codes "@"))
    then out
    else out ++ e ∷ []

-- the loop of NormalizeEmails
unfoldable pub email_loop : List Bytes → List Bytes → List Bytes
email_loop out [] = out
email_loop out (given ∷ rest) = email_loop (add_email out given) rest

-- NormalizeEmails
unfoldable pub normalize_emails : List Bytes → List Bytes
normalize_emails given = email_loop [] given
