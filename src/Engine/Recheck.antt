-- ===== src/Engine/Recheck.antt =====
-- What the second comparison of hashes, in the executor, can find in an approved run
-- (packages/agent-runtime/src/run-engine.ts, local-runtime.ts).
use maman_agent.Prelude.{
  ℕ, ◌≡◌, ◌===◌, false, String, some, List, [], ◌∷◌, refl, Bool-cases, inl, inr,
}
use maman_agent.Engine.Local.{require_adapter, Registry}
use maman_agent.Engine.Base.{ProposedDiff, World, EngineState, ErrorCause}
use maman_agent.Contracts.{AgentStep, AgentSpec}
use maman_agent.AgentInputs.{Values}
use maman_agent.Engine.Errors.{FineAdapter, is_unbound}
use maman_agent.Engine.Runs.{run_approved, ApprovedOutcome}
use maman_agent.Engine.RunErrors.{run_approved-Fine}

found :
    (adapters : Registry) (step : AgentStep) (s : EngineState)
    → FineAdapter is_unbound step (require_adapter adapters step s)
unfolding require_adapter
found [] step s = refl
found ((id, a) ∷ rest) step s = elim (Bool-cases (id === step.capability_id)) [
  | inl e ↦ rw e (λ _. refl)
  | inr e ↦ rw e (found rest step s)
]

-- If an approved run ends with an error, that error is neither that a write step has no approved
-- diff nor that its diff does not match its hash: the executor is given each diff with its own hash.
pub run_approved-bound :
    (stringify : ProposedDiff → List ℕ) (w : World) (spec : AgentSpec) (registry : Registry)
    (given : Values) (run_id : String) (now : ℕ) (approved : List ℕ) (s : EngineState)
    (c : ErrorCause)
    → (run_approved stringify w registry (some spec) given run_id now approved s).0
      ≡ ApprovedOutcome.failed c
    → is_unbound c ≡ false
run_approved-bound stringify w spec registry given run_id now approved s c e =
    run_approved-Fine is_unbound (λ _. refl) (λ _ _. refl) stringify w spec registry given run_id
      now approved (λ step _ t. found registry step t) s c e
