-- ===== src/Policy/Risk.antt =====
-- Deterministic risk classification (packages/policy-engine/src/risk.ts).
--
-- `toLowerCase` is taken on the letters A to Z. Any other letter is left as it is, and none of the
-- texts compared below has a letter that is the lower case of another one outside A to Z.
use maman_agent.Prelude.{
  ℕ, ltb, Bool, true, false, not, ◌&&◌, String, codes, lower_codes, includes, contains, same_codes,
  Option, none, some, List, [], ◌∷◌, any, if◌then◌else◌,
}
use maman_agent.Contracts.{
  RiskLevel, low, medium, high, prohibited, StepMode, is_read, is_write, is_high, is_medium,
  is_prohibited,
}
use maman_agent.Catalog.{
  Connector, salesforce, google_sheets, gmail, google_calendar, browser, local, CapabilityMetadata,
  get_capability,
}

-- `s.toLowerCase()`, as code points.
abbrev pub lower : String → List ℕ
lower s = lower_codes (codes s)

-- `HIGH_RISK_CRM_FIELDS`.
abbrev pub high_risk_crm_fields : List String
high_risk_crm_fields =
    "stagename" ∷ "stage" ∷ "ownerid" ∷ "owner" ∷ "amount" ∷ "forecastcategory"
    ∷ "forecast_category" ∷ "hasoptedoutofemail" ∷ "consent" ∷ "donotcall" ∷ []

-- `PROHIBITED_OPERATIONS`.
abbrev pub prohibited_operations : List String
prohibited_operations =
    "delete" ∷ "payment" ∷ "purchase" ∷ "transfer" ∷ "credential" ∷ "permission_change"
    ∷ "provision" ∷ "deprovision" ∷ "send" ∷ "social_post" ∷ "legal_accept" ∷ "code_execution"
    ∷ "shell" ∷ "disable_security" ∷ []

abbrev pub max_write_records : ℕ
max_write_records = 500

abbrev pub medium_crm_write_limit : ℕ
medium_crm_write_limit = 20

pub record StepRiskInput : Type 0 where
  pub capability_id : String
  pub mode : StepMode
  pub max_records_written : Option ℕ
  -- lowered names
  pub updated_fields : Option (List (List ℕ))
  pub ui_only_write : Option Bool
  pub customer_facing : Option Bool

abbrev pub same_connector : Connector → Connector → Bool
same_connector salesforce salesforce = true
same_connector google_sheets google_sheets = true
same_connector gmail gmail = true
same_connector google_calendar google_calendar = true
same_connector browser browser = true
same_connector local local = true
same_connector _ _ = false

-- `ORDER.indexOf`.
abbrev pub order : RiskLevel → ℕ
order low = 0
order medium = 1
order high = 2
order prohibited = 3

unfoldable pub escalate : RiskLevel → RiskLevel → RiskLevel
escalate current to = if ltb (order current) (order to) then to else current

abbrev pub records : Option ℕ → ℕ
records none = 0
records (some n) = n

abbrev pub truthy : Option Bool → Bool
truthy none = false
truthy (some b) = b

-- `updated_fields?.some((f) => HIGH_RISK_CRM_FIELDS.includes(f))`.
unfoldable pub touches_high_risk : Option (List (List ℕ)) → Bool
touches_high_risk none = false
touches_high_risk (some fs) = any (λ f. any (λ h. same_codes f (codes h)) high_risk_crm_fields) fs

-- `PROHIBITED_OPERATIONS.some((op) => id.toLowerCase().includes(op))`.
unfoldable pub has_prohibited_verb : String → Bool
has_prohibited_verb id = any (λ op. contains (lower id) (codes op)) prohibited_operations

abbrev pub escalate_if : Bool → RiskLevel → RiskLevel
escalate_if b risk = if b then escalate risk high else risk

-- The part behind `getCapability`: the catalog's level and the escalations of a step that is no read.
unfoldable pub escalated_risk : CapabilityMetadata → StepRiskInput → RiskLevel
escalated_risk c i =
    if is_read i.mode
    then c.risk_level
    else (if ltb max_write_records (records i.max_records_written)
        then prohibited
        else (let crm_write = same_connector c.connector salesforce && is_write i.mode in
            let r1 =
              escalate_if (crm_write && ltb medium_crm_write_limit (records i.max_records_written))
                c.risk_level in
            let r2 = escalate_if (touches_high_risk i.updated_fields) r1 in
            let r3 = escalate_if (truthy i.ui_only_write) r2 in
            escalate_if (truthy i.customer_facing) r3))

unfoldable pub classify_step_risk : StepRiskInput → RiskLevel
classify_step_risk i =
    if has_prohibited_verb i.capability_id
    then prohibited
    else elim (get_capability i.capability_id) [ none ↦ prohibited | some c ↦ escalated_risk c i ]

-- The result of `approvalRequirement`: "none", "per_run", "always" or "denied".
pub data Requirement : Type 0 where
  none_needed per_run always denied : Requirement

unfoldable pub approval_requirement : RiskLevel → StepMode → String → List String → Requirement
approval_requirement risk mode capability_id unattended =
    if is_prohibited risk
    then denied
    else (if not (is_write mode)
        then none_needed
        else (if is_high risk
            then always
            else (if is_medium risk
                then (if includes unattended capability_id then none_needed else per_run)
                else none_needed)))
