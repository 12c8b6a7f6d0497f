-- ===== src/Actuator/Runs/Reports.antt =====
-- Two reports that say more than was read back (packages/browser-actuator/src/execute.ts).
use maman_agent.Prelude.{
  ℕ, ◌≡◌, true, false, none, some, List, [], ◌∷◌, refl, arith, String, ◌∙◌, ap,
}
use maman_agent.Actuator.Action.{BrowserTarget, click_control, is_browser_write}
use maman_agent.Actuator.Authorize.{authorize_issue}
use maman_agent.Actuator.Resolve.{names_match}
use maman_agent.Actuator.Execute.{
  ExecuteContext, ExecuteDeps, execute_browser_plan, answered, issue_input, unstarted, judge,
  rounds, judge_result, round, issue, judge_write, Verdict, settle, sending, halt_at, push,
}
use maman_agent.Actuator.Plan.{PlanStep}
use maman_agent.Actuator.Verify.{
  BrowserActionResult, BrowserObservation, is_failed, is_applied, verify_write, compare_observed,
  BrowserActionOutcome, requires_independent_read, not_applied,
}

module _ (lower_case : List ℕ → List ℕ) (ctx : ExecuteContext) (deps : ExecuteDeps)
    (step : PlanStep) (r : BrowserActionResult)
    (sent : authorize_issue (issue_input ctx deps 0 unstarted step) ≡ none)
    (answer : deps.dispatch 0 ≡ answered r) (write : step.write ≡ true)
    (unrefused : r.refusal_reason ≡ none) where
  judged :
      is_failed r.outcome ≡ false
      → judge lower_case step (deps.dispatch 0)
        ≡ judge_write step r.observed (verify_write lower_case step.action r)
  unfolding judge judge_result
  judged f = ground arith

  run_lem :
      (v : Verdict)
      → judge lower_case step (deps.dispatch 0) ≡ v
      → execute_browser_plan lower_case (step ∷ []) ctx deps
        ≡ settle step v (sending ctx deps 0 step unstarted)
  unfolding execute_browser_plan rounds round issue
  run_lem v e = rw sent (rw e refl)

  click_verdict :
      (t : BrowserTarget) (name : String) (o : BrowserObservation)
      → step.action ≡ click_control t name
      → is_applied r.outcome ≡ true
      → r.observed ≡ some o
      → names_match lower_case name o.resolved_name ≡ true
      → verify_write lower_case step.action r ≡ requires_independent_read
  unfolding verify_write compare_observed
  click_verdict t name o a ok seen same = ground arith

  observed_verdict :
      is_browser_write step.action ≡ true
      → r.outcome ≡ BrowserActionOutcome.observed
      → verify_write lower_case step.action r ≡ not_applied
  unfolding verify_write
  observed_verdict w o = rw (w, o)

  -- A run whose only step is a click that the browser says it applied reports all writes as verified,
  -- whatever value was read after it, if any.
  execute_browser_plan-click :
      (t : BrowserTarget) (name : String) (o : BrowserObservation)
      → step.action ≡ click_control t name
      → is_applied r.outcome ≡ true
      → r.observed ≡ some o
      → names_match lower_case name o.resolved_name ≡ true
      → (execute_browser_plan lower_case (step ∷ []) ctx deps).all_writes_verified ≡ true
  unfolding judge_write halt_at push
  execute_browser_plan-click t name o a ok seen same =
      let v : verify_write lower_case step.action r ≡ requires_independent_read =
        click_verdict t name o a ok seen same in
      let j = judged (ground arith) ∙ ap (judge_write step r.observed) v in
      ap (λ e. e.all_writes_verified)
        (run_lem (judge_write step r.observed requires_independent_read) j)

  -- A run whose only step is a write that the browser says it only observed reports one applied write.
  execute_browser_plan-not_applied :
      is_browser_write step.action ≡ true
      → r.outcome ≡ BrowserActionOutcome.observed
      → (execute_browser_plan lower_case (step ∷ []) ctx deps).writes_applied ≡ 1
  unfolding judge_write halt_at push
  execute_browser_plan-not_applied w o =
      let v : verify_write lower_case step.action r ≡ not_applied = observed_verdict w o in
      let j = judged (ground arith) ∙ ap (judge_write step r.observed) v in
      ap (λ e. e.writes_applied) (run_lem (judge_write step r.observed not_applied) j)
