-- ===== src/Policy.antt =====
-- The organization policy engine (packages/policy-engine/src/risk.ts, org-policy.ts, evaluate.ts).
-- `Policy.Risk` classifies steps; this file evaluates steps and whole specs.
pub mod Risk
pub mod RiskLaws
pub mod StepLaws
pub mod SpecLaws
mod Examples
use maman_agent.Prelude.{
  ℕ, ltb, min, ◌==◌, Bool, true, false, not, ◌&&◌, ◌||◌, String, ◌===◌, includes, Option, none,
  some, List, [], ◌∷◌, ◌++◌, map, any, flat_map, is_empty, if◌then◌else◌, codes,
}
use maman_agent.Contracts.{
  RiskLevel, prohibited, StepMode, AgentStep, AgentSpec, is_high, is_write, is_prohibited,
  is_schedule,
}
use maman_agent.Catalog.{Connector, CapabilityMetadata, get_capability, capability_exists}
use maman_agent.Policy.Risk.{
  StepRiskInput, classify_step_risk, lower, approval_requirement, Requirement, none_needed, per_run,
  always, denied, same_connector,
}

pub record AllowedCapability : Type 0 where
  pub id : String
  pub version : ℕ

-- `allowed_capabilities`: "catalog" or an explicit list.
pub data AllowedCapabilities : Type 0 where
  catalog : AllowedCapabilities
  listed : List AllowedCapability → AllowedCapabilities

-- `orgPolicySchema`, the fields that evaluation reads.
pub record OrgPolicy : Type 0 where
  pub enabled_connectors : List Connector
  pub allowed_capabilities : AllowedCapabilities
  pub disabled_capabilities : List String
  pub max_records_read : ℕ
  pub max_records_written : ℕ
  pub unattended_medium_capabilities : List String
  pub max_run_cost_usd : ℕ
  pub allow_scheduled_supervised : Bool

-- A message is the list of the parts of its template.
pub data Part : Type 0 where
  lit : String → Part
  num : ℕ → Part
  risk : RiskLevel → Part
  mode : StepMode → Part

pub record Reason : Type 0 where
  pub code : String
  pub message : List Part
  pub rule_id : String

pub data Decision : Type 0 where
  allow require_approval deny : Decision

-- `limits`: empty, or both bounds.
pub record Limits : Type 0 where
  pub max_records : Option ℕ
  pub max_cost_usd : Option ℕ

pub record PolicyDecision : Type 0 where
  pub decision : Decision
  pub policy_version_id : String
  pub evaluated_at : String
  pub reasons : List Reason
  pub limits : Limits

pub record EvaluationContext : Type 0 where
  pub policy_version_id : String
  pub evaluated_at : String

abbrev reason : String → List Part → String → Reason
reason code message rule_id = record { code = code; message = message; rule_id = rule_id }

abbrev no_limits : Limits
no_limits = record { max_records = none; max_cost_usd = none }

abbrev pub is_deny : Decision → Bool
is_deny deny = true
is_deny _ = false

abbrev pub needs_approval : Decision → Bool
needs_approval require_approval = true
needs_approval _ = false

listed_version : AllowedCapabilities → CapabilityMetadata → String → ℕ → Bool
listed_version catalog c id version = c.version == version
listed_version (listed cs) c id version = any (λ a. a.id === id && a.version == version) cs

abbrev connector_enabled : List Connector → Connector → Bool
connector_enabled cs k = any (same_connector k) cs

-- `capabilityAllowed`.
unfoldable pub capability_allowed : OrgPolicy → String → ℕ → Bool
unfolding listed_version
capability_allowed policy id version =
    if includes policy.disabled_capabilities id then false else elim (get_capability id) [
      | none ↦ false
      | some c ↦
          if not (connector_enabled policy.enabled_connectors c.connector)
          then false
          else listed_version policy.allowed_capabilities c id version
    ]

-- `effectiveStepRisk`.
unfoldable pub effective_step_risk : AgentStep → AgentSpec → RiskLevel
effective_step_risk step spec = classify_step_risk (record {
  capability_id = step.capability_id;
  mode = step.mode;
  max_records_written = some spec.budgets.max_records_written;
  updated_fields = some (map (λ e. lower e.0) step.inputs);
  ui_only_write =
      some (step.capability_id === "browser.supervised_form_fill" && is_write step.mode);
  customer_facing = none;
})

-- The reasons that `evaluateStep` collects before it looks at approval.
unfoldable pub denial_reasons : AgentSpec → AgentStep → OrgPolicy → List Reason
denial_reasons spec step policy =
    (if not (capability_exists step.capability_id)
      then reason "unknown_capability"
          (lit "capability " ∷ lit step.capability_id ∷ lit " does not exist" ∷ []) "P-CAP-1"
        ∷ []
      else (if not (capability_allowed policy step.capability_id step.capability_version)
          then reason "capability_disabled"
              (lit "capability "
                ∷ lit step.capability_id
                ∷ lit " v"
                ∷ num step.capability_version
                ∷ lit " is not allowed by organization policy"
                ∷ [])
              "P-CAP-2"
            ∷ []
          else []))
    ++ (if is_prohibited (effective_step_risk step spec)
        then reason "prohibited_risk" (lit "step operation is prohibited in v1" ∷ []) "P-RISK-1"
          ∷ []
        else [])

abbrev is_always : Requirement → Bool
is_always always = true
is_always _ = false

abbrev is_none_needed : Requirement → Bool
is_none_needed none_needed = true
is_none_needed _ = false

-- The decision of a step with nothing against it.
permit : AgentStep → RiskLevel → Requirement → OrgPolicy → EvaluationContext → PolicyDecision
permit step level requirement policy ctx =
    let limits : Limits = record {
      max_records = some policy.max_records_written;
      max_cost_usd = some policy.max_run_cost_usd;
    } in
    if is_none_needed requirement
    then record {
      decision = allow;
      policy_version_id = ctx.policy_version_id;
      evaluated_at = ctx.evaluated_at;
      reasons =
          reason "allowed" (risk level ∷ lit "-risk " ∷ mode step.mode ∷ lit " step permitted" ∷ [])
            "P-ALLOW-1"
          ∷ [];
      limits = limits;
    }
    else record {
      decision = require_approval;
      policy_version_id = ctx.policy_version_id;
      evaluated_at = ctx.evaluated_at;
      reasons =
          (if is_always requirement
            then reason "high_risk_approval"
                (lit
                    "high-risk steps require run-specific approval and may never become unattended in v1"
                  ∷ [])
                "P-APPR-2"
            else reason "medium_write_approval"
                (lit "medium-risk writes require one approval per run" ∷ []) "P-APPR-1")
          ∷ [];
      limits = limits;
    }

abbrev refuse : List Reason → EvaluationContext → PolicyDecision
refuse reasons ctx = record {
  decision = deny;
  policy_version_id = ctx.policy_version_id;
  evaluated_at = ctx.evaluated_at;
  reasons = reasons;
  limits = no_limits;
}

unfoldable pub evaluate_step :
    AgentSpec → AgentStep → OrgPolicy → EvaluationContext → PolicyDecision
unfolding permit
evaluate_step spec step policy ctx =
    let reasons = denial_reasons spec step policy in
    let level = effective_step_risk step spec in
    if not (is_empty reasons)
    then refuse reasons ctx
    else permit step level
        (approval_requirement level step.mode step.capability_id
          policy.unattended_medium_capabilities)
        policy ctx

-- A reason of a step, as the whole spec reports it.
abbrev prefixed : AgentStep → Reason → Reason
prefixed step r = record r { message = lit "step " ∷ lit step.step_id ∷ lit ": " ∷ r.message }

-- One round of the loop over `spec.steps`.
step_reasons : AgentSpec → OrgPolicy → EvaluationContext → AgentStep → List Reason
step_reasons spec policy ctx step =
    (if is_deny (evaluate_step spec step policy ctx).decision
      then map (prefixed step) (evaluate_step spec step policy ctx).reasons
      else [])
    ++ (if is_high (effective_step_risk step spec) && not step.approval.required
        then reason "high_risk_missing_approval"
            (lit "step " ∷ lit step.step_id ∷ lit ": high-risk step must declare approval" ∷ [])
            "P-APPR-3"
          ∷ []
        else [])

-- The checks of the budgets and the trigger.
budget_reasons : AgentSpec → OrgPolicy → List Reason
budget_reasons spec policy =
    (if ltb policy.max_records_written spec.budgets.max_records_written
      then reason "write_budget_exceeded"
          (lit "spec writes up to "
            ∷ num spec.budgets.max_records_written
            ∷ lit " records; organization allows "
            ∷ num policy.max_records_written
            ∷ [])
          "P-BUDGET-1"
        ∷ []
      else [])
    ++ (if ltb policy.max_records_read spec.budgets.max_records_read
        then reason "read_budget_exceeded"
            (lit "spec reads up to "
              ∷ num spec.budgets.max_records_read
              ∷ lit "; organization allows "
              ∷ num policy.max_records_read
              ∷ [])
            "P-BUDGET-2"
          ∷ []
        else [])
    ++ (if ltb policy.max_run_cost_usd spec.budgets.max_cost_usd
        then reason "cost_budget_exceeded"
            (lit "spec cost budget $"
              ∷ num spec.budgets.max_cost_usd
              ∷ lit " exceeds organization per-run limit $"
              ∷ num policy.max_run_cost_usd
              ∷ [])
            "P-BUDGET-3"
          ∷ []
        else [])
    ++ (if is_schedule spec.trigger && not policy.allow_scheduled_supervised
        then reason "schedule_not_allowed"
            (lit "organization policy does not allow supervised agents to be scheduled" ∷ [])
            "P-SCHED-1"
          ∷ []
        else [])

unfoldable pub spec_reasons : AgentSpec → OrgPolicy → EvaluationContext → List Reason
unfolding step_reasons budget_reasons
spec_reasons spec policy ctx =
    flat_map (step_reasons spec policy ctx) spec.steps ++ budget_reasons spec policy

unfoldable pub evaluate_spec : AgentSpec → OrgPolicy → EvaluationContext → PolicyDecision
unfolding spec_reasons
evaluate_spec spec policy ctx =
    let reasons = spec_reasons spec policy ctx in
    let approvals =
      any (λ step. needs_approval (evaluate_step spec step policy ctx).decision) spec.steps in
    if not (is_empty reasons) then refuse reasons ctx else record {
      decision = if approvals then require_approval else allow;
      policy_version_id = ctx.policy_version_id;
      evaluated_at = ctx.evaluated_at;
      reasons =
          reason (if approvals then "spec_requires_approvals" else "spec_allowed")
            (lit (
                if approvals
                then "spec is valid; material writes pause for approval at run time"
                else "spec is valid and fully read-only")
              ∷ [])
            "P-SPEC-1"
          ∷ [];
      limits = record {
        max_records = some policy.max_records_written;
        max_cost_usd = some (min spec.budgets.max_cost_usd policy.max_run_cost_usd);
      };
    }
