-- ===== src/Actuator/RunExamples.antt =====
-- Runs of concrete plans.
use maman_agent.Prelude.{◌≡◌, true, none, some, List, [], ◌∷◌, All, map, refl, lower_codes}
use maman_agent.Actuator.Action.{click_control, button}
use maman_agent.Actuator.Authorize.{supervised, authorize_issue, write_refusal}
use maman_agent.Actuator.Plan.{PlanStep, text}
use maman_agent.Actuator.Resolve.{names_match, normalize_name}
use maman_agent.Actuator.Verify.{
  BrowserActionResult, BrowserActionOutcome, verify_write, compare_observed,
}
use maman_agent.Actuator.Execute.{
  ExecuteContext, ExecuteDeps, answered, issue_input, unstarted, execute_browser_plan, rounds,
  round, issue, judge, judge_result, judge_write, halt_at, push, StepStatus,
}
use maman_agent.Actuator.Runs.Counts.{count, execute_browser_plan-CountsWrites}
use maman_agent.Actuator.Runs.Requests.{
  IsSendable, AreFresh, execute_browser_plan-IsSendable, execute_browser_plan-AreFresh,
}
use maman_agent.Actuator.Runs.Verdicts.{is_write_done}

abbrev save : PlanStep
save = record {
  step_id = text "save" ∷ [];
  action = click_control (record { role = button; name = "Save"; nth = none }) "Save";
  preview = text "Click \"Save\"" ∷ [];
  change_index = none;
  write = true;
}

abbrev ctx : ExecuteContext
ctx = record {
  routed_source = "browser_extension";
  mode = supervised;
  allow_supervised_browser_writes = true;
  approval_granted = true;
  user_present = true;
  allowed_origins = "https://example.test" ∷ [];
}

abbrev saved : BrowserActionResult
saved = record {
  outcome = BrowserActionOutcome.applied;
  refusal_reason = none;
  observed =
      some (record {
        resolved_name = "Save";
        value_before = none;
        value_after = none;
        match_count = 1;
      });
  failure = none;
}

abbrev seen_only : BrowserActionResult
seen_only = record saved { outcome = BrowserActionOutcome.observed }

-- The same token at each round.
abbrev deps : ExecuteDeps
deps = record {
  dispatch = λ i. answered saved;
  mint_authorization = λ i. "0123456789abcdef0123456789abcdef";
  now = λ i. 1000;
}

abbrev plan : List PlanStep
plan = save ∷ save ∷ []

-- The second step is not sent.
plan-statuses :
    map (λ o. o.status) (execute_browser_plan lower_codes plan ctx deps).steps
    ≡ StepStatus.applied ∷ StepStatus.not_issued ∷ []
unfolding execute_browser_plan rounds round issue judge judge_result judge_write halt_at push
    verify_write compare_observed authorize_issue write_refusal names_match normalize_name
plan-statuses = refl

save-sent : authorize_issue (issue_input ctx deps 0 unstarted save) ≡ none
unfolding authorize_issue write_refusal
save-sent = refl

names : names_match lower_codes "Save" "Save" ≡ true
unfolding names_match normalize_name
names = refl

execute_browser_plan-CountsWrites_example :
    (execute_browser_plan lower_codes plan ctx deps).writes_applied
    ≡ count is_write_done (execute_browser_plan lower_codes plan ctx deps).steps
execute_browser_plan-CountsWrites_example =
    execute_browser_plan-CountsWrites lower_codes ctx deps plan

execute_browser_plan-IsSendable_example :
    All (IsSendable ctx) (execute_browser_plan lower_codes plan ctx deps).dispatched
execute_browser_plan-IsSendable_example = execute_browser_plan-IsSendable lower_codes ctx deps plan

execute_browser_plan-AreFresh_example :
    AreFresh [] (execute_browser_plan lower_codes plan ctx deps).dispatched
execute_browser_plan-AreFresh_example = execute_browser_plan-AreFresh lower_codes ctx deps plan
