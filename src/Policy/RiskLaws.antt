-- ===== src/Policy/RiskLaws.antt =====
-- What the risk classification guarantees (risk.ts, `classifyStepRisk`).
use maman_agent.Prelude.{
  ℕ, ltb, ◌≤◌, ◌≡◌, Bool, ◌&&◌, String, codes, contains, contains-append, some, List, ◌++◌, Memᴰ,
  any_intro, arith,
}
use maman_agent.Contracts.{RiskLevel, prohibited, is_write}
use maman_agent.Catalog.{CapabilityMetadata, salesforce, get_capability}
use maman_agent.Policy.Risk.{
  StepRiskInput, lower, prohibited_operations, has_prohibited_verb, order, escalate, escalated_risk,
  escalate_if, truthy, records, same_connector, touches_high_risk, classify_step_risk,
  medium_crm_write_limit,
}

escalate_if-le : (b : Bool) (r : RiskLevel) → order r ≤ order (escalate_if b r)
unfolding escalate
escalate_if-le b r = ground arith

order-le-prohibited : (r : RiskLevel) → order r ≤ order prohibited
order-le-prohibited r = ground arith

-- The escalations never go below the catalog's level.
escalated_risk-le :
    (c : CapabilityMetadata) (i : StepRiskInput) → order c.risk_level ≤ order (escalated_risk c i)
unfolding escalated_risk
escalated_risk-le c i =
    let crm = same_connector c.connector salesforce && is_write i.mode in
    let b1 = crm && ltb medium_crm_write_limit (records i.max_records_written) in
    let r1 = escalate_if b1 c.risk_level in
    let b2 = touches_high_risk i.updated_fields in
    let r2 = escalate_if b2 r1 in
    let b3 = truthy i.ui_only_write in
    ground (
      arith,
      escalate_if-le b1 c.risk_level,
      escalate_if-le b2 r1,
      escalate_if-le b3 r2,
      escalate_if-le (truthy i.customer_facing) (escalate_if b3 r2),
      order-le-prohibited c.risk_level,
    )

-- The effective risk of a step is never below the level that the catalog gives its capability.
classify-ge-catalog :
    (i : StepRiskInput) (c : CapabilityMetadata)
    → get_capability i.capability_id ≡ some c
    → order c.risk_level ≤ order (classify_step_risk i)
unfolding classify_step_risk
classify-ge-catalog i c h = ground (arith, escalated_risk-le c i, order-le-prohibited c.risk_level)

-- A capability whose lowered id holds one of the prohibited verbs anywhere is prohibited, in every
-- mode and whatever the catalog says.
classify-prohibited_verb :
    (i : StepRiskInput) (op : String) (before after : List ℕ)
    → Memᴰ op prohibited_operations
    → lower i.capability_id ≡ before ++ codes op ++ after
    → classify_step_risk i ≡ prohibited
unfolding classify_step_risk has_prohibited_verb
classify-prohibited_verb i op before after m e = rw (
    any_intro (λ o. contains (lower i.capability_id) (codes o)) op prohibited_operations m
      (rw e (contains-append before (codes op) after)))
