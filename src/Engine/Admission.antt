-- ===== src/Engine/Admission.antt =====
-- A registration and the runs after it (packages/agent-runtime/src/local-runtime.ts).
use maman_agent.Prelude.{
  ℕ, ◌≡◌, Bool, false, String, ◌===◌, Option, some, List, [], ◌∷◌, Bool-cases, inl, inr, arith,
  refl, ≡→===,
}
use maman_agent.Contracts.{AgentSpec}
use maman_agent.Validator.Check.{Parsed, ValidationResult, valid, invalid, validate_agent_spec}
use maman_agent.AgentInputs.{Values}
use maman_agent.Engine.Base.{ErrorCause, EngineState, ProposedDiff, World}
use maman_agent.Engine.Runs.{run_approved, ApprovedOutcome}
use maman_agent.Engine.Ready.{
  MissingCapability, validate_runtime_capabilities, runtime_from_registry, get_entry,
}
use maman_agent.Engine.Readiness.{is_unready, run_approved-ready}
use maman_agent.Engine.Agents.{
  RegisteredAgent, Runtime, registered, set_agent, register_ready, register_valid, register_agent,
  fresh_agent,
}
use mathlib.Core.Path.{subst}

get-set :
    (id : String) (a : RegisteredAgent) (agents : List (String × RegisteredAgent))
    → get_entry id (set_agent id a agents) ≡ some a
unfolding get_entry
get-set id a [] = let same = ≡→=== id id refl in rw same refl
get-set id a ((k, b) ∷ rest) = elim (Bool-cases (k === id)) [
  | inl e ↦ rw e (rw e refl)
  | inr e ↦ rw e (rw e (get-set id a rest))
]

-- The agent's steps have their adapters in the registry of the runtime.
abbrev IsReady : RegisteredAgent → Runtime → Type 0
IsReady a rt =
    validate_runtime_capabilities a.spec.steps (runtime_from_registry rt.registry []) ≡ []

ready :
    (id key : String) (spec : AgentSpec) (enabled : Option Bool) (rt : Runtime)
    (ms : List MissingCapability) (a : RegisteredAgent)
    → validate_runtime_capabilities spec.steps (runtime_from_registry rt.registry []) ≡ ms
    → (register_ready id spec enabled rt ms).0 ≡ registered key
    → get_entry id ((register_ready id spec enabled rt ms).1.agents) ≡ some a
    → IsReady a ((register_ready id spec enabled rt ms).1)
ready id key spec enabled rt [] a h e g =
    let put = get-set id (fresh_agent spec enabled) rt.agents in
    let same : fresh_agent spec enabled ≡ a = cc in
    subst
      (λ b. validate_runtime_capabilities b.spec.steps (runtime_from_registry rt.registry []) ≡ [])
      same h
ready id key spec enabled rt (m ∷ ms) a h e g = absurd (ground arith)

ready_valid :
    (id key : String) (enabled : Option Bool) (rt : Runtime) (v : ValidationResult)
    (a : RegisteredAgent)
    → (register_valid id enabled rt v).0 ≡ registered key
    → get_entry id ((register_valid id enabled rt v).1.agents) ≡ some a
    → IsReady a ((register_valid id enabled rt v).1)
ready_valid id key enabled rt (invalid issues) a e g = absurd (ground arith)
ready_valid id key enabled rt (valid spec) a e g =
    ready id key spec enabled rt
      (validate_runtime_capabilities spec.steps (runtime_from_registry rt.registry [])) a refl e g

-- If a spec is registered, a run of the agent that the runtime then holds under the id of that spec,
-- approved and with the runtime's registry, does not end with the error that a step's adapter is not
-- there or lacks the step's operation, whatever the adapters answer.
pub register_agent-ready :
    (parse : AgentSpec → Parsed) (given : AgentSpec) (enabled : Option Bool) (rt : Runtime)
    (key : String) (a : RegisteredAgent) (stringify : ProposedDiff → List ℕ) (w : World)
    (values : Values) (run_id : String) (now : ℕ) (approved : List ℕ) (s : EngineState)
    (c : ErrorCause)
    → (register_agent parse given enabled rt).0 ≡ registered key
    → get_entry given.agent_id ((register_agent parse given enabled rt).1.agents) ≡ some a
    → (run_approved stringify w
        ((register_agent parse given enabled rt).1.registry)
        (some a.spec)
        values
        run_id
        now
        approved
        s).0
      ≡ ApprovedOutcome.failed c
    → is_unready c ≡ false
unfolding register_agent
register_agent-ready parse given enabled rt key a stringify w values run_id now approved s c e g f =
    let v = validate_agent_spec (parse given) in
    run_approved-ready stringify w a.spec ((register_valid given.agent_id enabled rt v).1.registry)
      [] values run_id now approved s c (ready_valid given.agent_id key enabled rt v a e g) f
