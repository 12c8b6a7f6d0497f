-- ===== src/Engine/Agents.antt =====
-- The agents that the local runtime holds and their registration
-- (packages/agent-runtime/src/local-runtime.ts, `LocalAgentRuntime`). Instants are in milliseconds;
-- parsing by zod is a parameter.
use maman_agent.Prelude.{
  ℕ, ◌===◌, if◌then◌else◌, Bool, true, String, List, [], ◌∷◌, ◌++◌, Option, none, some,
}
use maman_agent.Contracts.{AgentSpec, AgentTrigger}
use maman_agent.Validator.Check.{
  Parsed, ValidationIssue, ValidationResult, valid, invalid, validate_agent_spec,
}
use maman_agent.Engine.Local.{Registry}
use maman_agent.Engine.Ready.{
  MissingCapability, validate_runtime_capabilities, runtime_from_registry,
}

-- `workflowContextSchema`.
pub record WorkflowContext : Type 0 where
  pub source : String
  pub app_category : String
  pub event_type : String
  pub target_role : String
  pub semantic_type : String
  pub object_type : String
  pub domain : Option String
  pub occurred_at : String

pub record RegisteredAgent : Type 0 where
  pub spec : AgentSpec
  pub enabled : Bool
  pub last_triggered_at : Option ℕ
  pub last_run_at : Option ℕ

pub record TriggerFiring : Type 0 where
  pub agent_id : String
  pub agent_name : String
  pub trigger : AgentTrigger
  pub context : WorkflowContext

-- A firing with the key of its agent, the instant at which the context was handled, and the one that
-- was stored.
pub record Fired : Type 0 where
  pub key : String
  pub firing : TriggerFiring
  pub start : ℕ
  pub stamp : ℕ

-- What the runtime did to the world: readings of the clock, firings (the last one first) and calls of
-- `onAgentChanged`.
pub record Effects : Type 0 where
  pub reads : ℕ
  pub log : List Fired
  pub changed : List RegisteredAgent

pub record Runtime : Type 0 where
  pub registry : Registry
  pub agents : List (String × RegisteredAgent)
  pub effects : Effects

-- The detail of a refusal is the first issue or the first capability that is missing.
pub data RegistrationResult : Type 0 where
  registered : (agent_id : String) → RegistrationResult
  invalid_spec : List ValidationIssue → RegistrationResult
  runtime_unavailable : List MissingCapability → RegistrationResult

-- `Map.set`, `Map.delete` and a change of the entry of a key.
abbrev pub set_agent :
    String → RegisteredAgent → List (String × RegisteredAgent) → List (String × RegisteredAgent)
set_agent id a [] = (id, a) ∷ []
set_agent id a ((k, b) ∷ rest) =
    let later = (k, b) ∷ set_agent id a rest in if k === id then (k, a) ∷ rest else later

abbrev pub delete_agent : String → List (String × RegisteredAgent) → List (String × RegisteredAgent)
delete_agent id [] = []
delete_agent id ((k, b) ∷ rest) =
    let later = delete_agent id rest in if k === id then later else (k, b) ∷ later

abbrev pub update_agent :
    String
    → (RegisteredAgent → RegisteredAgent)
    → List (String × RegisteredAgent)
    → List (String × RegisteredAgent)
update_agent id f [] = []
update_agent id f ((k, b) ∷ rest) =
    let later = update_agent id f rest in (k, (if k === id then f b else b)) ∷ later

abbrev pub announce : RegisteredAgent → Effects → Effects
announce a fx = record fx { changed = fx.changed ++ a ∷ [] }

abbrev pub or_enabled : Option Bool → Bool
or_enabled none = true
or_enabled (some b) = b

abbrev pub fresh_agent : AgentSpec → Option Bool → RegisteredAgent
fresh_agent spec enabled = record {
  spec = spec;
  enabled = or_enabled enabled;
  last_triggered_at = none;
  last_run_at = none;
}

abbrev pub add_agent : String → RegisteredAgent → Runtime → Runtime
add_agent id a rt = record {
  registry = rt.registry;
  agents = set_agent id a rt.agents;
  effects = announce a rt.effects;
}

-- The check of the runtime, after that of the spec.
abbrev pub register_ready :
    String
    → AgentSpec
    → Option Bool
    → Runtime
    → List MissingCapability
    → RegistrationResult × Runtime
register_ready id spec enabled rt [] = (registered id, add_agent id (fresh_agent spec enabled) rt)
register_ready id spec enabled rt (m ∷ ms) = (runtime_unavailable (m ∷ ms), rt)

abbrev pub register_valid :
    String → Option Bool → Runtime → ValidationResult → RegistrationResult × Runtime
register_valid id enabled rt (invalid issues) = (invalid_spec issues, rt)
register_valid id enabled rt (valid spec) =
    register_ready id spec enabled rt
      (validate_runtime_capabilities spec.steps (runtime_from_registry rt.registry []))

abbrev pub set_switch : Bool → RegisteredAgent → RegisteredAgent
set_switch b a = record a { enabled = b }

abbrev pub switch_agent : String → Bool → Runtime → Option RegisteredAgent → Runtime
switch_agent id b rt none = rt
switch_agent id b rt (some a) = record {
  registry = rt.registry;
  agents = update_agent id (set_switch b) rt.agents;
  effects = announce (set_switch b a) rt.effects;
}

module _ (parse : AgentSpec → Parsed) where
  unfoldable pub register_agent : AgentSpec → Option Bool → Runtime → RegistrationResult × Runtime
  register_agent spec enabled rt =
      register_valid spec.agent_id enabled rt (validate_agent_spec (parse spec))

  abbrev pub restore_times : RegisteredAgent → RegisteredAgent → RegisteredAgent
  restore_times saved a = record a {
    last_triggered_at = saved.last_triggered_at;
    last_run_at = saved.last_run_at;
  }

  abbrev pub after_registration : RegisteredAgent → RegistrationResult × Runtime → Runtime
  after_registration saved (registered id, rt) = record rt {
    agents = update_agent saved.spec.agent_id (restore_times saved) rt.agents;
  }
  after_registration saved (other, rt) = rt

  -- The constructor's loop over the agents that the host kept.
  unfoldable pub restore_agents : List RegisteredAgent → Runtime → Runtime
  restore_agents [] rt = rt
  restore_agents (saved ∷ rest) rt =
      restore_agents rest
        (after_registration saved (register_agent saved.spec (some saved.enabled) rt))

  abbrev pub new_runtime : Registry → List RegisteredAgent → Runtime
  new_runtime registry saved = restore_agents saved (record {
    registry = registry;
    agents = [];
    effects = record { reads = 0; log = []; changed = [] };
  })
