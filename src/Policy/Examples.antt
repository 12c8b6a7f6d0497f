-- ===== src/Policy/Examples.antt =====
-- Tests of the policy engine, and its theorems at concrete specs.
use maman_agent.Prelude.{◌≡◌, ◌≢◌, ◌↔◌, refl, true, false, none, some, [], ◌∷◌, All}
use maman_agent.Contracts.{
  low, medium, high, prohibited, read, write, AgentSpec, AgentStep, schedule,
}
use maman_agent.Catalog.{
  salesforce, google_sheets, gmail, google_calendar, browser, local, write_cap, get_capability,
  capability_exists, CapabilityMetadata,
}
use maman_agent.Policy.Risk.{
  StepRiskInput, escalate, touches_high_risk, has_prohibited_verb, escalated_risk,
  classify_step_risk, approval_requirement,
}
use maman_agent.Policy.{
  OrgPolicy, catalog, EvaluationContext, allow, require_approval, deny, capability_allowed,
  effective_step_risk, denial_reasons, evaluate_step, evaluate_spec,
}
use maman_agent.Policy.SpecLaws.{IsAdmissible, IsWithin, evaluate_spec-ne-deny_iff}
use maman_agent.Samples.{reconcile, read_step, write_step}

-- `DEFAULT_ORG_POLICY`.
abbrev default_policy : OrgPolicy
default_policy = record {
  enabled_connectors = salesforce ∷ google_sheets ∷ gmail ∷ google_calendar ∷ browser ∷ local ∷ [];
  allowed_capabilities = catalog;
  disabled_capabilities = [];
  max_records_read = 10000;
  max_records_written = 500;
  unattended_medium_capabilities = [];
  max_run_cost_usd = 5;
  allow_scheduled_supervised = false;
}

abbrev at_noon : EvaluationContext
at_noon = record { policy_version_id = "p1"; evaluated_at = "2026-01-01T12:00:00Z" }

engine : Unit {0}
unfolding evaluate_spec evaluate_step denial_reasons approval_requirement capability_allowed
    effective_step_risk classify_step_risk has_prohibited_verb escalated_risk escalate
    touches_high_risk get_capability capability_exists
engine = tt

-- A write of the stage of an opportunity is high however few records it writes.
abbrev stage_step : AgentStep
stage_step = record write_step {
  inputs = ("StageName", maman_agent.Contracts.literal (maman_agent.Contracts.text "Won")) ∷ [];
}

abbrev sender : AgentStep
sender = record read_step { capability_id = "gmail.Send_now" }

decisions :
    ((evaluate_step reconcile read_step default_policy at_noon).decision ≡ allow)
    × ((evaluate_step reconcile write_step default_policy at_noon).decision ≡ require_approval)
    × ((evaluate_step reconcile sender default_policy at_noon).decision ≡ deny)
    × (effective_step_risk stage_step reconcile ≡ high)
    × ((evaluate_spec reconcile default_policy at_noon).decision ≡ require_approval)
    × ((evaluate_spec (record reconcile { steps = read_step ∷ [] }) default_policy at_noon).decision
        ≡ allow)
    × ((evaluate_spec
          (record reconcile { trigger = schedule "0 9 * * *" "UTC" })
          default_policy
          at_noon).decision
        ≡ deny)
unfolding engine
decisions = (refl, refl, refl, refl, refl, refl, refl)

abbrev updates : CapabilityMetadata
updates = write_cap "salesforce.update_fields" salesforce true

found : get_capability "salesforce.update_fields" ≡ some updates
unfolding get_capability
found = refl

abbrev many : StepRiskInput
many = record {
  capability_id = "salesforce.update_fields";
  mode = write;
  max_records_written = some 21;
  updated_fields = none;
  ui_only_write = none;
  customer_facing = none;
}

not_denied : (evaluate_step reconcile write_step default_policy at_noon).decision ≢ deny
not_denied = λ e. cc (decisions.1)

evaluate_spec-ne-deny_iff_example :
    ((evaluate_spec reconcile default_policy at_noon).decision ≢ deny) ↔ (
      All (IsAdmissible reconcile default_policy at_noon) reconcile.steps
      × IsWithin reconcile default_policy)
evaluate_spec-ne-deny_iff_example = evaluate_spec-ne-deny_iff reconcile default_policy at_noon
