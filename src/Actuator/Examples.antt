-- ===== src/Actuator/Examples.antt =====
-- Runs of the actuator's code on concrete input.
use maman_agent.Prelude.{
  ◌≡◌, ◌↔◌, Bool, true, false, String, ◌===◌, lower_codes, none, some, List, [], ◌∷◌, All, refl,
}
use maman_agent.Actuator.Action.{
  BrowserTarget, BrowserAction, set_value, textbox, button, BrowserActionRequest, CandidateControl,
  PageContext, ok, refused, ambiguous_match, is_browser_write,
}
use maman_agent.Actuator.Resolve.{
  resolve_request, origin_allowed, subject_origin, by_action, matching_controls, names_match,
  normalize_name, pick, check_control, check_preconditions, values_match, target_of,
}
use maman_agent.Actuator.ResolveLaws.{IsFit, resolve_request-Fits}
use maman_agent.Actuator.Authorize.{
  IssueInput, supervised, authorize_issue, IsIssuable, MayWrite, authorize_issue-none_iff,
  write_refusal,
}
use maman_agent.Actuator.Plan.{
  PlannedChange, PlanInput, planned, AppliedChange, plan_steps, plan_browser_writes, plan_revert,
  revert_input, check_changes, restorable, is_restorable, reverted, put_back,
}
use maman_agent.Actuator.PlanLaws.{IsApprovedStep, plan_browser_writes-IsApprovedStep}
use maman_agent.Actuator.RevertLaws.{IsRestoring, plan_revert-IsRestoring}

abbrev amount : CandidateControl
amount = record {
  role = textbox;
  accessible_name = "Amount *";
  value = some "120";
  editable = true;
  secure = false;
  visible = true;
}

abbrev save_button : CandidateControl
save_button = record {
  role = button;
  accessible_name = "Save";
  value = none;
  editable = true;
  secure = false;
  visible = true;
}

abbrev page : PageContext
page = record {
  origin = "https://example.test";
  private_window = false;
  user_present = true;
  paused = false;
  controls = amount ∷ save_button ∷ [];
}

abbrev target : BrowserTarget
target = record { role = textbox; name = "amount"; nth = none }

abbrev set_amount : BrowserAction
set_amount = set_value target "340" (some "120")

abbrev request : BrowserActionRequest
request = record {
  action = set_amount;
  allowed_origins = "https://example.test" ∷ [];
  consequential = true;
  authorization = "0123456789abcdef0123456789abcdef";
  expires_at = 1000;
}

abbrev same_origin : String → String
same_origin s = s

abbrev is_valid : String → Bool
is_valid s = s === "0123456789abcdef0123456789abcdef"

set_amount-ok : resolve_request lower_codes same_origin request page 999 is_valid ≡ ok amount 1
unfolding resolve_request origin_allowed subject_origin by_action matching_controls names_match
    normalize_name pick check_control check_preconditions values_match
set_amount-ok = refl

set_amount-ambiguous :
    resolve_request lower_codes same_origin request
      (record page { controls = amount ∷ amount ∷ [] })
      999
      is_valid
    ≡ refused ambiguous_match 2
unfolding resolve_request origin_allowed subject_origin by_action matching_controls names_match
    normalize_name pick check_control check_preconditions values_match
set_amount-ambiguous = refl

set_amount-target : target_of set_amount ≡ some target
unfolding target_of
set_amount-target = refl

resolve_request-Fits_example : IsFit lower_codes same_origin request.action target page amount
resolve_request-Fits_example =
    resolve_request-Fits lower_codes same_origin request page 999 is_valid amount 1 target
      set_amount-target set_amount-ok

abbrev issue : IssueInput
issue = record {
  routed_source = "browser_extension";
  action = set_amount;
  mode = supervised;
  allow_supervised_browser_writes = true;
  approval_granted = true;
  user_present = true;
  allowed_origins = "https://example.test" ∷ [];
  authorization = "0123456789abcdef0123456789abcdef";
  spent_authorizations = [];
  issued_at = 1000;
  expires_at = 121000;
}

issue-sent : authorize_issue issue ≡ none
unfolding authorize_issue write_refusal
issue-sent = refl

authorize_issue-none_iff_example :
    (authorize_issue issue ≡ none)
    ↔ (IsIssuable issue × (is_browser_write issue.action ≡ true → MayWrite issue))
authorize_issue-none_iff_example = authorize_issue-none_iff issue

abbrev change : PlannedChange
change = record {
  «record» = "Northwind Traders";
  field_label = "Employees";
  «from» = "120";
  to = "340";
  role = none;
  nth = none;
}

abbrev input : PlanInput
input = record { changes = change ∷ []; save_control = some "Save" }

input-planned : plan_browser_writes lower_codes input ≡ planned (plan_steps input)
unfolding plan_browser_writes check_changes
input-planned = refl

plan_browser_writes-IsApprovedStep_example : All (IsApprovedStep input) (plan_steps input)
plan_browser_writes-IsApprovedStep_example =
    plan_browser_writes-IsApprovedStep lower_codes input (plan_steps input) input-planned

abbrev applied : List AppliedChange
applied = record { change = change; observed_before = some "121"; wrote = "340" } ∷ []

applied-planned : plan_revert lower_codes applied ≡ planned (plan_steps (revert_input applied))
unfolding plan_revert restorable is_restorable revert_input reverted put_back plan_browser_writes
    check_changes
applied-planned = refl

plan_revert-IsRestoring_example :
    All (λ s. IsRestoring applied s.action) (plan_steps (revert_input applied))
plan_revert-IsRestoring_example =
    plan_revert-IsRestoring lower_codes applied (plan_steps (revert_input applied)) applied-planned
