-- ===== src/Policy/SpecLaws.antt =====
-- When a whole spec passes the policy (evaluate.ts, `evaluateSpec`).
use maman_agent.Prelude.{
  ◌≤◌, ◌≡◌, ◌≢◌, ◌↔◌, true, false, [], map, flat_map, All, is_empty, is_empty-append,
  is_empty-flat_map, is_empty-map, all-All_iff, Memᴰ, any_intro, All-mem, arith,
}
use maman_agent.Contracts.{high, AgentStep, AgentSpec, is_schedule}
use maman_agent.Policy.{
  OrgPolicy, EvaluationContext, allow, deny, needs_approval, effective_step_risk, prefixed,
  evaluate_step, step_reasons, budget_reasons, spec_reasons, evaluate_spec,
}
use maman_agent.Policy.StepLaws.{evaluate_step-limits}

-- What the policy asks of a step of a spec.
abbrev pub IsAdmissible : AgentSpec → OrgPolicy → EvaluationContext → AgentStep → Type 0
IsAdmissible spec policy ctx step =
    ((evaluate_step spec step policy ctx).decision ≢ deny)
    × (effective_step_risk step spec ≡ high → step.approval.required ≡ true)

-- What it asks of the budgets and the trigger.
abbrev pub IsWithin : AgentSpec → OrgPolicy → Type 0
IsWithin spec policy =
    (spec.budgets.max_records_written ≤ policy.max_records_written)
    × (spec.budgets.max_records_read ≤ policy.max_records_read)
    × (spec.budgets.max_cost_usd ≤ policy.max_run_cost_usd)
    × (is_schedule spec.trigger ≡ true → policy.allow_scheduled_supervised ≡ true)

module _ (spec : AgentSpec) (policy : OrgPolicy) (ctx : EvaluationContext) where
  step_reasons_iff :
      (step : AgentStep)
      → (is_empty (step_reasons spec policy ctx step) ≡ true) ↔ IsAdmissible spec policy ctx step
  unfolding step_reasons
  step_reasons_iff step = ground (
    arith,
    evaluate_step-limits spec step policy ctx,
    is_empty-map (prefixed step) (evaluate_step spec step policy ctx).reasons,
    is_empty-append (map (prefixed step) (evaluate_step spec step policy ctx).reasons) [],
  )

  budget_reasons_iff : (is_empty (budget_reasons spec policy) ≡ true) ↔ IsWithin spec policy
  unfolding budget_reasons
  budget_reasons_iff = ground arith

  spec_reasons_iff :
      (is_empty (spec_reasons spec policy ctx) ≡ true)
      ↔ (All (IsAdmissible spec policy ctx) spec.steps × IsWithin spec policy)
  unfolding spec_reasons
  spec_reasons_iff = ground (
    arith,
    is_empty-append (flat_map (step_reasons spec policy ctx) spec.steps)
        (budget_reasons spec policy),
    is_empty-flat_map (step_reasons spec policy ctx) spec.steps,
    all-All_iff (IsAdmissible spec policy ctx) (λ s. is_empty (step_reasons spec policy ctx s))
        step_reasons_iff spec.steps,
    budget_reasons_iff,
  )

  evaluate_spec-deny_iff :
      ((evaluate_spec spec policy ctx).decision ≡ deny)
      ↔ (is_empty (spec_reasons spec policy ctx) ≡ false)
  unfolding evaluate_spec
  evaluate_spec-deny_iff = ground arith

-- A spec passes the policy (its decision is not a denial) exactly when no step of it is denied, every
-- step of high effective risk declares an approval, its budgets for writes, reads and cost are within
-- the organization's, and it has a schedule only if the organization allows that.
pub evaluate_spec-ne-deny_iff :
    (spec : AgentSpec) (policy : OrgPolicy) (ctx : EvaluationContext)
    → ((evaluate_spec spec policy ctx).decision ≢ deny)
      ↔ (All (IsAdmissible spec policy ctx) spec.steps × IsWithin spec policy)
evaluate_spec-ne-deny_iff spec policy ctx =
    ground (arith, evaluate_spec-deny_iff spec policy ctx, spec_reasons_iff spec policy ctx)

-- A spec that is allowed with no approval has only steps that run unattended.
evaluate_spec-allow :
    (spec : AgentSpec) (policy : OrgPolicy) (ctx : EvaluationContext) (step : AgentStep)
    → (evaluate_spec spec policy ctx).decision ≡ allow
    → Memᴰ step spec.steps
    → (evaluate_step spec step policy ctx).decision ≡ allow
unfolding evaluate_spec
evaluate_spec-allow spec policy ctx step h m =
    let passed : (evaluate_spec spec policy ctx).decision ≢ deny = λ d. cc in
    let (admissible, _) = (evaluate_spec-ne-deny_iff spec policy ctx).0 passed in
    let asks = λ (s : AgentStep). needs_approval (evaluate_step spec s policy ctx).decision in
    ground (
      arith,
      All-mem (IsAdmissible spec policy ctx) step spec.steps admissible m,
      any_intro asks step spec.steps m,
    )
