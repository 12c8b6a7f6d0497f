-- ===== src/Policy/StepLaws.antt =====
-- What the evaluation of one step decides (evaluate.ts, `evaluateStep`).
use maman_agent.Prelude.{
  ℕ, ◌≡◌, ◌≢◌, ◌↔◌, ◌⊎◌, inl, inr, true, false, includes, some, [], arith, Option-cases,
}
use maman_agent.Contracts.{low, medium, high, prohibited, write, AgentStep, AgentSpec}
use maman_agent.Catalog.{CapabilityMetadata, get_capability, capability_exists}
use maman_agent.Policy.Risk.{approval_requirement}
use maman_agent.Policy.{
  OrgPolicy, EvaluationContext, allow, deny, no_limits, connector_enabled, capability_allowed,
  effective_step_risk, denial_reasons, evaluate_step,
}

capability_exists_of_allowed :
    (policy : OrgPolicy) (id : _) (version : ℕ)
    → capability_allowed policy id version ≡ true
    → capability_exists id ≡ true
unfolding capability_allowed capability_exists
capability_exists_of_allowed policy id version h = ground arith

-- A step is denied exactly when the policy does not allow its capability at its version, or its
-- effective risk is prohibited.
evaluate_step-eq-deny_iff :
    (spec : AgentSpec) (step : AgentStep) (policy : OrgPolicy) (ctx : EvaluationContext)
    → ((evaluate_step spec step policy ctx).decision ≡ deny) ↔ (
        (capability_allowed policy step.capability_id step.capability_version ≡ false)
        ⊎ (effective_step_risk step spec ≡ prohibited))
unfolding evaluate_step denial_reasons approval_requirement
evaluate_step-eq-deny_iff spec step policy ctx =
    ground (arith, capability_exists_of_allowed policy step.capability_id step.capability_version)

-- A step that is not denied runs unattended exactly when it does not write, or its effective risk is
-- low, or it is medium and the policy lists the capability as unattended.
evaluate_step-eq-allow_iff :
    (spec : AgentSpec) (step : AgentStep) (policy : OrgPolicy) (ctx : EvaluationContext)
    → (evaluate_step spec step policy ctx).decision ≢ deny
    → ((evaluate_step spec step policy ctx).decision ≡ allow) ↔ (
        (step.mode ≢ write)
        ⊎ (effective_step_risk step spec ≡ low)
        ⊎ ((effective_step_risk step spec ≡ medium)
            × (includes policy.unattended_medium_capabilities step.capability_id ≡ true)))
unfolding evaluate_step denial_reasons approval_requirement
evaluate_step-eq-allow_iff spec step policy ctx h = ground arith

-- A write whose effective risk is high is never allowed to run unattended, whatever the policy.
high_write-ne-allow :
    (spec : AgentSpec) (step : AgentStep) (policy : OrgPolicy) (ctx : EvaluationContext)
    → step.mode ≡ write
    → effective_step_risk step spec ≡ high
    → (evaluate_step spec step policy ctx).decision ≢ allow
unfolding evaluate_step approval_requirement
high_write-ne-allow spec step policy ctx h k = ground arith

-- A denial always carries a reason and no limits; any other decision carries the policy's limits.
pub evaluate_step-limits :
    (spec : AgentSpec) (step : AgentStep) (policy : OrgPolicy) (ctx : EvaluationContext)
    → (((evaluate_step spec step policy ctx).decision ≡ deny)
        × ((evaluate_step spec step policy ctx).limits ≡ no_limits)
        × ((evaluate_step spec step policy ctx).reasons ≢ []))
      ⊎ (((evaluate_step spec step policy ctx).decision ≢ deny)
          × ((evaluate_step spec step policy ctx).limits.max_records
              ≡ some policy.max_records_written)
          × ((evaluate_step spec step policy ctx).limits.max_cost_usd
              ≡ some policy.max_run_cost_usd))
unfolding evaluate_step
evaluate_step-limits spec step policy ctx = ground arith

-- A step that is not denied uses a capability of the catalog whose connector is enabled and which
-- the policy does not disable.
evaluate_step-capability :
    (spec : AgentSpec) (step : AgentStep) (policy : OrgPolicy) (ctx : EvaluationContext)
    → (evaluate_step spec step policy ctx).decision ≢ deny
    → (c : CapabilityMetadata) × (get_capability step.capability_id ≡ some c)
      × (connector_enabled policy.enabled_connectors c.connector ≡ true)
      × (includes policy.disabled_capabilities step.capability_id ≡ false)
unfolding capability_allowed
evaluate_step-capability spec step policy ctx h =
    elim (Option-cases (get_capability step.capability_id)) [
      | inl missing ↦
          absurd (h ((evaluate_step-eq-deny_iff spec step policy ctx).1 (inl (ground arith))))
      | inr (c, found) ↦
          let not_refused : capability_allowed policy step.capability_id step.capability_version
              ≢ false =
            λ e. h ((evaluate_step-eq-deny_iff spec step policy ctx).1 (inl e)) in
          (c, found, ground arith, ground arith)
    ]
