-- ===== src/Engine/Readiness.antt =====
-- A runtime that is ready has what its runs need (packages/agent-runtime/src/runtime-capabilities.ts,
-- local-runtime.ts).
use maman_agent.Prelude.{
  ℕ, ◌≡◌, ◌===◌, Bool, true, false, String, includes, Option, some, none, List, [], ◌∷◌, map, any,
  Bool-cases, if◌then◌else◌, inl, inr, sym, Memᴰ, arith, refl, inl, inr,
}
use maman_agent.Contracts.{read, propose_write, write, StepMode, AgentStep, AgentSpec}
use maman_agent.Engine.Base.{
  ErrorCause, CapabilityAdapter, no_adapter, no_implementation, EngineState, ProposedDiff, World,
}
use maman_agent.Engine.Local.{require_adapter, Registry}
use maman_agent.Engine.Ready.{
  get_entry, same_mode, implemented, supports, validate_runtime_capabilities, check_step,
  runtime_from_registry, CapabilityRuntime, MissingReason, add_missing,
}
use maman_agent.Engine.Errors.{implements, FineAdapter}
use mathlib.Core.Path.{subst}
use maman_agent.AgentInputs.{Values}
use maman_agent.Engine.Runs.{run_approved, ApprovedOutcome}
use maman_agent.Engine.RunErrors.{run_approved-Fine}

-- The errors that no adapter is there, or that it lacks the operation.
abbrev pub is_unready : ErrorCause → Bool
is_unready (no_adapter _) = true
is_unready (no_implementation _) = true
is_unready _ = false

implemented_lem :
    (a : CapabilityAdapter) (m : StepMode)
    → any (same_mode m) (implemented a) ≡ true
    → implements a m ≡ true
implemented_lem a read h = ground arith
implemented_lem a propose_write h = ground arith
implemented_lem a write h = ground arith

-- What the registry has for the rest of the entries.
abbrev entries : Registry → List (String × List StepMode)
entries adapters = map (λ e. (e.0, implemented e.1)) adapters

found :
    (adapters : Registry) (step : AgentStep) (s : EngineState)
    → includes (map (λ e. e.0) adapters) step.capability_id ≡ true
    → supports step (get_entry step.capability_id (entries adapters)) ≡ true
    → FineAdapter is_unready step (require_adapter adapters step s)
unfolding require_adapter get_entry
found [] step s i h = ground arith
found ((id, a) ∷ rest) step s i h =
    let split : (b : Bool)
        → id === step.capability_id ≡ b
        → supports step
            (if b then some (implemented a) else get_entry step.capability_id (entries rest))
          ≡ true =
      λ b e.
        subst
          (λ b.
            supports step
              (if b then some (implemented a) else get_entry step.capability_id (entries rest))
            ≡ true)
          e h in
    elim (Bool-cases (id === step.capability_id)) [
      | inl e ↦ rw e (λ lacks.
          let k = implemented_lem a step.mode (split true e) in absurd (ground (arith, k, lacks)))
      | inr e ↦ rw e (found rest step s (ground (arith, i, e)) (split false e))
    ]

nothing_missing :
    (steps : List AgentStep) (runtime : CapabilityRuntime) (step : AgentStep)
    → validate_runtime_capabilities steps runtime ≡ []
    → Memᴰ step steps
    → check_step runtime step ≡ none
unfolding validate_runtime_capabilities
nothing_missing [] runtime step h m = elim m [ ]
nothing_missing (x ∷ xs) runtime step h (Memᴰ.head e) =
    subst (λ t. check_step runtime t ≡ none) (sym e) (found_none (check_step runtime x) h)
  where
    found_none :
        (r : Option MissingReason)
        → add_missing x r (validate_runtime_capabilities xs runtime) ≡ []
        → r ≡ none
    found_none none h = refl
    found_none (some reason) h = ground (arith, h)
nothing_missing (x ∷ xs) runtime step h (Memᴰ.tail m) =
    nothing_missing xs runtime step (rest_none (check_step runtime x) h) m
  where
    rest_none :
        (r : Option MissingReason)
        → add_missing x r (validate_runtime_capabilities xs runtime) ≡ []
        → validate_runtime_capabilities xs runtime ≡ []
    rest_none none h = h
    rest_none (some reason) h = ground (arith, h)

checked :
    (runtime : CapabilityRuntime) (step : AgentStep)
    → check_step runtime step ≡ none
    → includes runtime.available step.capability_id ≡ true
      × supports step (get_entry step.capability_id runtime.modes) ≡ true
unfolding check_step
checked runtime step h = (ground arith, ground arith)

ready_step :
    (registry : Registry) (unmet : List (String × String)) (step : AgentStep) (s : EngineState)
    → check_step (runtime_from_registry registry unmet) step ≡ none
    → FineAdapter is_unready step (require_adapter registry step s)
unfolding runtime_from_registry
ready_step registry unmet step s h =
    let c = checked (runtime_from_registry registry unmet) step h in found registry step s c.0 c.1

-- If nothing is missing from the runtime of a registry, an approved run with that registry does not end with the error
-- that a step's adapter is not there or lacks the step's operation, whatever the adapters answer.
pub run_approved-ready :
    (stringify : ProposedDiff → List ℕ) (w : World) (spec : AgentSpec) (registry : Registry)
    (unmet : List (String × String)) (given : Values) (run_id : String) (now : ℕ)
    (approved : List ℕ) (s : EngineState) (c : ErrorCause)
    → validate_runtime_capabilities spec.steps (runtime_from_registry registry unmet) ≡ []
    → (run_approved stringify w registry (some spec) given run_id now approved s).0
      ≡ ApprovedOutcome.failed c
    → is_unready c ≡ false
run_approved-ready stringify w spec registry unmet given run_id now approved s c h e =
    run_approved-Fine is_unready (λ _. refl) (λ _ _. refl) stringify w spec registry given run_id
      now approved
      (λ step m t.
        ready_step registry unmet step t
          (nothing_missing spec.steps (runtime_from_registry registry unmet) step h m))
      s c e
