-- ===== src/Engine/Ready.antt =====
-- Whether a runtime can execute an agent (packages/agent-runtime/src/runtime-capabilities.ts). Sets and
-- maps are lists; prerequisites that are not given are none.
use maman_agent.Prelude.{
  ◌===◌, ◌++◌, Bool, true, false, not, String, includes, Option, some, none, List, [], ◌∷◌, map,
  any, if◌then◌else◌,
}
use maman_agent.Engine.Base.{CapabilityAdapter}
use maman_agent.Contracts.{read, propose_write, write, StepMode, AgentStep}
use maman_agent.Engine.Local.{Registry}
use maman_agent.Catalog.{capability_exists}

pub record CapabilityRuntime : Type 0 where
  pub available : List String
  pub modes : List (String × List StepMode)
  pub unmet_prerequisites : List (String × String)

pub data MissingReason : Type 0 where
  not_in_catalog without_adapter mode_unsupported : MissingReason
  prerequisite_unmet : (detail : String) → MissingReason

pub record MissingCapability : Type 0 where
  pub capability_id : String
  pub step_id : String
  pub reason : MissingReason

-- The modes of the functions that the adapter has.
abbrev pub implemented : CapabilityAdapter → List StepMode
implemented a =
    (if a.read then read ∷ [] else [])
    ++ (if a.propose_write then propose_write ∷ [] else [])
    ++ (if a.write then write ∷ [] else [])

-- `runtimeFromRegistry`.
unfoldable pub runtime_from_registry :
    Registry → (unmet : List (String × String)) → CapabilityRuntime
runtime_from_registry registry unmet = record {
  available = map (λ e. e.0) registry;
  modes = map (λ e. (e.0, implemented e.1)) registry;
  unmet_prerequisites = unmet;
}

-- `Map.get`.
unfoldable pub get_entry {ℓ} : {A : Type ℓ} → String → List (String × A) → Option A
get_entry id [] = none
get_entry id ((j, a) ∷ rest) = if j === id then some a else get_entry id rest

abbrev pub same_mode : StepMode → StepMode → Bool
same_mode read read = true
same_mode propose_write propose_write = true
same_mode write write = true
same_mode _ _ = false

abbrev pub supports : AgentStep → Option (List StepMode) → Bool
supports step none = true
supports step (some modes) = any (same_mode step.mode) modes

abbrev unmet : Option String → Option MissingReason
unmet none = none
unmet (some detail) = some (prerequisite_unmet detail)

-- What the loop finds of one step.
unfoldable pub check_step : CapabilityRuntime → AgentStep → Option MissingReason
check_step runtime step =
    if not (capability_exists step.capability_id)
    then some not_in_catalog
    else (if not (includes runtime.available step.capability_id)
        then some without_adapter
        else (if not (supports step (get_entry step.capability_id runtime.modes))
            then some mode_unsupported
            else unmet (get_entry step.capability_id runtime.unmet_prerequisites)))

abbrev pub add_missing :
    AgentStep → Option MissingReason → List MissingCapability → List MissingCapability
add_missing step none rest = rest
add_missing step (some reason) rest =
    record { capability_id = step.capability_id; step_id = step.step_id; reason = reason } ∷ rest

-- `validateRuntimeCapabilities`: what is missing; the agent is ready if nothing is.
unfoldable pub validate_runtime_capabilities :
    List AgentStep → CapabilityRuntime → List MissingCapability
validate_runtime_capabilities [] runtime = []
validate_runtime_capabilities (step ∷ steps) runtime =
    add_missing step (check_step runtime step) (validate_runtime_capabilities steps runtime)
