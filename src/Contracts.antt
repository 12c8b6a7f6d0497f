-- ===== src/Contracts.antt =====
-- The shared data types of agents and runs (packages/contracts/src/agent-spec.ts, run.ts, policy.ts).
-- Money is in whole units of a fixed fraction of a dollar. The fields of an `AgentSpec` that no
-- modelled code reads (owners, descriptions, provenance, assertions, creation) are left out.
use maman_agent.Prelude.{ℕ, Bool, true, false, String, List, Option}

-- `agentTriggerSchema`.
pub data AgentTrigger : Type 0 where
  manual : AgentTrigger
  schedule : (cron timezone : String) → AgentTrigger
  event : (connector event_name : String) → AgentTrigger
  context :
      (app_category : String) (object_type origin : Option String) (cooldown_seconds : ℕ)
      → AgentTrigger

pub data InputType : Type 0 where
  string number boolean date record_reference file_reference : InputType

pub data InputSource : Type 0 where
  user trigger previous_step discovered_on_surface : InputSource

pub data InputSensitivity : Type 0 where
  public internal confidential : InputSensitivity

-- `agentInputSchema`.
pub record AgentInput : Type 0 where
  pub key : String
  pub label : String
  pub type : InputType
  pub required : Bool
  pub sensitivity : InputSensitivity
  pub source : InputSource
  pub source_ref : Option String

-- A literal value of a binding: text, number or boolean.
pub data Literal : Type 0 where
  text : String → Literal
  num : ℕ → Literal
  flag : Bool → Literal

-- `stepInputBindingSchema`.
pub data StepInputBinding : Type 0 where
  literal : Literal → StepInputBinding
  agent_input : (ref : String) → StepInputBinding
  step_output : (ref : String) → StepInputBinding

pub data RiskLevel : Type 0 where
  low medium high prohibited : RiskLevel

pub data StepMode : Type 0 where
  read propose_write write : StepMode

pub record StepApproval : Type 0 where
  pub required : Bool
  pub reason : Option String

pub record StepRetry : Type 0 where
  pub allowed : Bool
  pub max_attempts : ℕ
  pub backoff_seconds : List ℕ

-- `agentStepSchema`. The record of inputs is the list of its entries.
pub record AgentStep : Type 0 where
  pub step_id : String
  pub order : ℕ
  pub name : String
  pub capability_id : String
  pub capability_version : ℕ
  pub mode : StepMode
  pub inputs : List (String × StepInputBinding)
  pub output_key : String
  pub risk_level : RiskLevel
  pub approval : StepApproval
  pub retry : StepRetry

-- `agentBudgetsSchema`.
pub record AgentBudgets : Type 0 where
  pub max_runtime_seconds : ℕ
  pub max_model_tokens : ℕ
  pub max_cost_usd : ℕ
  pub max_records_read : ℕ
  pub max_records_written : ℕ

pub data OnToolFailure : Type 0 where
  stop retry_safe : OnToolFailure

-- `agentFailurePolicySchema`; `on_assertion_failure` has one value.
pub record AgentFailurePolicy : Type 0 where
  pub on_tool_failure : OnToolFailure
  pub max_safe_retries : ℕ
  pub approval_timeout_minutes : ℕ

-- `agentSpecSchema`.
pub record AgentSpec : Type 0 where
  pub agent_id : String
  pub version_id : String
  pub name : String
  pub trigger : AgentTrigger
  pub inputs : List AgentInput
  pub steps : List AgentStep
  pub budgets : AgentBudgets
  pub failure_policy : AgentFailurePolicy

-- `agentRunMode`.
pub data RunMode : Type 0 where
  shadow supervised active : RunMode

-- Tests of enumerations by `===`.
abbrev pub is_write : StepMode → Bool
is_write write = true
is_write _ = false

abbrev pub is_read : StepMode → Bool
is_read read = true
is_read _ = false

abbrev pub is_high : RiskLevel → Bool
is_high high = true
is_high _ = false

abbrev pub is_medium : RiskLevel → Bool
is_medium medium = true
is_medium _ = false

abbrev pub is_prohibited : RiskLevel → Bool
is_prohibited prohibited = true
is_prohibited _ = false

abbrev pub is_schedule : AgentTrigger → Bool
is_schedule (schedule _ _) = true
is_schedule _ = false

abbrev pub is_shadow : RunMode → Bool
is_shadow shadow = true
is_shadow _ = false
