-- ===== src/Validator/Check.antt =====
-- The rules of the validation (packages/agent-runtime/src/validator.ts, `validateAgentSpec`). An issue
-- is its rule with the values that its message shows; parsing by zod is its outcome, `Parsed`.
use maman_agent.Prelude.{
  ℕ, suc, ltb, ◌==◌, if◌then◌else◌, Bool, true, false, ◌&&◌, ◌||◌, not, String, ◌===◌, includes,
  List, [], ◌∷◌, ◌++◌, map, flat_map, length, any, Option, none, some, sort_by, ◌*◌,
}
use maman_agent.Contracts.{
  AgentSpec, AgentStep, AgentTrigger, schedule, StepInputBinding, literal, agent_input, step_output,
  text, num, flag, StepMode, read, propose_write, write, is_write, is_high, is_prohibited, is_read,
}
use maman_agent.Catalog.{CapabilityMetadata, get_capability}
use maman_agent.Validator.Secrets.{looks_like_secret, is_url, looks_like_code}
use maman_agent.Validator.Cron.{min_cron_interval_minutes}

abbrev max_steps : ℕ
max_steps = 20

abbrev max_runtime_seconds : ℕ
max_runtime_seconds = 30 * 60

abbrev max_record_writes : ℕ
max_record_writes = 500

abbrev min_schedule_interval_minutes : ℕ
min_schedule_interval_minutes = 15

pub data ValidationIssue : Type 0 where
  v_schema : String → ValidationIssue
  v_steps_1 : ℕ → ValidationIssue
  v_steps_2 v_steps_3 : ValidationIssue
  v_ref_1 v_ref_2 : (step_id input ref : String) → ValidationIssue
  v_ref_3 : (step_id ref : String) → ValidationIssue
  v_secret_1 v_url_1 v_exec_1 : (step_id : String) → ValidationIssue
  v_cap_1 : (step_id capability_id : String) → ValidationIssue
  v_cap_2 : (step_id : String) (version current : ℕ) → ValidationIssue
  v_cap_3 : (step_id : String) (mode : StepMode) → ValidationIssue
  v_cap_4 v_risk_1 v_risk_2 : (step_id : String) → ValidationIssue
  v_budget_1 v_budget_2 v_sched_1 : ℕ → ValidationIssue
  v_sched_2 : ValidationIssue

pub data ValidationResult : Type 0 where
  valid : AgentSpec → ValidationResult
  invalid : List ValidationIssue → ValidationResult

-- The outcome of `agentSpecSchema.safeParse`, with the paths and messages of its issues.
pub data Parsed : Type 0 where
  success : AgentSpec → Parsed
  failure : List String → Parsed

-- The issues of the tests that hold.
abbrev pub issues_when : List (Bool × ValidationIssue) → List ValidationIssue
issues_when [] = []
issues_when ((b, i) ∷ ts) = let rest = issues_when ts in if b then i ∷ rest else rest

-- `orders.every((o, i) => o === i + 1)`, from the place `i` on.
abbrev pub counts_up : ℕ → List ℕ → Bool
counts_up i [] = true
counts_up i (o ∷ os) = o == suc i && counts_up (suc i) os

abbrev pub orders_of : AgentSpec → List ℕ
orders_of spec = sort_by (λ o. o) (map (λ s. s.order) spec.steps)

-- The size of a set of texts is the length of the list only if no text comes twice.
abbrev pub has_duplicate : List String → Bool
has_duplicate [] = false
has_duplicate (t ∷ ts) = includes ts t || has_duplicate ts

-- `outputsByStep.get(ref)`: the last step with the key counts.
abbrev pub later_or : Option ℕ → Option ℕ → Option ℕ
later_or none o = o
later_or (some n) o = some n

abbrev pub producer_order : String → List AgentStep → Option ℕ
producer_order ref [] = none
producer_order ref (s ∷ ss) =
    later_or (producer_order ref ss) (if s.output_key === ref then some s.order else none)

abbrev pub producer_issues : AgentStep → String → String → Option ℕ → List ValidationIssue
producer_issues step input ref none = v_ref_2 step.step_id input ref ∷ []
producer_issues step input ref (some order) =
    issues_when ((not (ltb order step.order), v_ref_3 step.step_id ref) ∷ [])

abbrev pub literal_tests : AgentStep → String → List (Bool × ValidationIssue)
literal_tests step value =
    (looks_like_secret value, v_secret_1 step.step_id)
    ∷ (is_url value, v_url_1 step.step_id)
    ∷ (looks_like_code value, v_exec_1 step.step_id)
    ∷ []

abbrev pub has_input : AgentSpec → String → Bool
has_input spec ref = includes (map (λ i. i.key) spec.inputs) ref

abbrev pub binding_issues : AgentSpec → AgentStep → String × StepInputBinding → List ValidationIssue
binding_issues spec step (input, agent_input ref) =
    issues_when ((not (has_input spec ref), v_ref_1 step.step_id input ref) ∷ [])
binding_issues spec step (input, step_output ref) =
    producer_issues step input ref (producer_order ref spec.steps)
binding_issues spec step (input, literal (text value)) = issues_when (literal_tests step value)
binding_issues spec step (input, literal (num n)) = []
binding_issues spec step (input, literal (flag b)) = []

abbrev pub is_proposal : StepMode → Bool
is_proposal propose_write = true
is_proposal _ = false

abbrev pub equal_mode : StepMode → StepMode → Bool
equal_mode read m = is_read m
equal_mode propose_write m = is_proposal m
equal_mode write m = is_write m

abbrev pub supports_mode : CapabilityMetadata → StepMode → Bool
supports_mode c mode = any (equal_mode mode) c.supported_modes

abbrev pub capability_tests : AgentStep → CapabilityMetadata → List (Bool × ValidationIssue)
capability_tests step c =
    (
      not (c.version == step.capability_version),
      v_cap_2 step.step_id step.capability_version c.version,
    )
    ∷ (not (supports_mode c step.mode), v_cap_3 step.step_id step.mode)
    ∷ (is_write step.mode && not (supports_mode c propose_write), v_cap_4 step.step_id)
    ∷ (is_prohibited step.risk_level, v_risk_1 step.step_id)
    ∷ (is_high step.risk_level && not step.approval.required, v_risk_2 step.step_id)
    ∷ []

abbrev pub capability_issues : AgentStep → Option CapabilityMetadata → List ValidationIssue
capability_issues step none = v_cap_1 step.step_id step.capability_id ∷ []
capability_issues step (some c) = issues_when (capability_tests step c)

abbrev pub step_issues : AgentSpec → AgentStep → List ValidationIssue
step_issues spec step =
    flat_map (binding_issues spec step) step.inputs
    ++ capability_issues step (get_capability step.capability_id)

abbrev pub interval_issues : Option ℕ → List ValidationIssue
interval_issues none = v_sched_2 ∷ []
interval_issues (some n) = issues_when ((ltb n min_schedule_interval_minutes, v_sched_1 n) ∷ [])

abbrev pub schedule_issues : AgentTrigger → List ValidationIssue
schedule_issues (schedule cron timezone) = interval_issues (min_cron_interval_minutes cron)
schedule_issues _ = []

abbrev pub shape_tests : AgentSpec → List (Bool × ValidationIssue)
shape_tests spec =
    (ltb max_steps (length spec.steps), v_steps_1 (length spec.steps))
    ∷ (not (counts_up 0 (orders_of spec)), v_steps_2)
    ∷ (has_duplicate (map (λ s. s.step_id) spec.steps), v_steps_3)
    ∷ []

abbrev pub budget_tests : AgentSpec → List (Bool × ValidationIssue)
budget_tests spec =
    (
      ltb max_runtime_seconds spec.budgets.max_runtime_seconds,
      v_budget_1 spec.budgets.max_runtime_seconds,
    )
    ∷ (
      ltb max_record_writes spec.budgets.max_records_written,
      v_budget_2 spec.budgets.max_records_written,
    )
    ∷ []

unfoldable pub spec_issues : AgentSpec → List ValidationIssue
spec_issues spec =
    issues_when (shape_tests spec)
    ++ flat_map (step_issues spec) spec.steps
    ++ issues_when (budget_tests spec)
    ++ schedule_issues spec.trigger

abbrev pub result_of : AgentSpec → List ValidationIssue → ValidationResult
result_of spec [] = valid spec
result_of spec (i ∷ is) = invalid (i ∷ is)

unfoldable pub validate_agent_spec : Parsed → ValidationResult
validate_agent_spec (failure messages) = invalid (map v_schema messages)
validate_agent_spec (success spec) = result_of spec (spec_issues spec)
