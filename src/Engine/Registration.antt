-- ===== src/Engine/Registration.antt =====
-- What the agents of the local runtime have passed (packages/agent-runtime/src/local-runtime.ts).
use maman_agent.Prelude.{
  ℕ, ◌≡◌, Bool, String, Option, some, none, List, [], ◌∷◌, Bool-cases, inl, inr, refl, ap, suc,
}
use maman_agent.Contracts.{AgentSpec}
use maman_agent.Validator.Check.{Parsed, ValidationResult, valid, invalid, validate_agent_spec}
use maman_agent.Validator.Laws.{IsSound, validate_agent_spec-IsSound}
use maman_agent.Engine.Local.{Registry}
use maman_agent.Engine.Ready.{
  MissingCapability, validate_runtime_capabilities, runtime_from_registry, get_entry,
}
use maman_agent.Engine.Agents.{
  RegisteredAgent, Runtime, RegistrationResult, registered, invalid_spec, runtime_unavailable,
  register_ready, register_valid, switch_agent, WorkflowContext, Effects, register_agent,
  after_registration, restore_agents, new_runtime, fresh_agent, set_switch, restore_times,
}
use maman_agent.Engine.Triggers.{
  fire_agents, handle_context, RuntimeOperation, register, unregister, set_enabled,
  replace_registry, saw_context, operate_runtime, operate_runtime_all, is_due, fire_effects,
}
use maman_agent.Engine.Held.{
  keys, IsHeld, set-IsHeld, delete-IsHeld, specs, same-IsHeld, update-IsHeld,
}

module _ (clock : ℕ → ℕ) where
  pub fire_agents-keys :
      (ctx : WorkflowContext) (start : ℕ) (agents : List (String × RegisteredAgent)) (fx : Effects)
      → keys ((fire_agents clock ctx start agents fx).agents) ≡ keys agents
  unfolding fire_agents
  fire_agents-keys ctx start [] fx = refl
  fire_agents-keys ctx start ((k, a) ∷ rest) fx = elim (Bool-cases (is_due ctx start a)) [
    | inl e ↦
        rw e (
          ap (λ ks. k ∷ ks) (fire_agents-keys ctx start rest (fire_effects clock ctx start k a fx)))
    | inr e ↦ rw e (ap (λ ks. k ∷ ks) (fire_agents-keys ctx start rest fx))
  ]

  fire_agents-specs :
      (ctx : WorkflowContext) (start : ℕ) (agents : List (String × RegisteredAgent)) (fx : Effects)
      → specs ((fire_agents clock ctx start agents fx).agents) ≡ specs agents
  unfolding fire_agents
  fire_agents-specs ctx start [] fx = refl
  fire_agents-specs ctx start ((k, a) ∷ rest) fx = elim (Bool-cases (is_due ctx start a)) [
    | inl e ↦ rw e (
        ap (λ ks. a.spec ∷ ks)
          (fire_agents-specs ctx start rest (fire_effects clock ctx start k a fx)))
    | inr e ↦ rw e (ap (λ ks. a.spec ∷ ks) (fire_agents-specs ctx start rest fx))
  ]

  handle_context-IsHeld :
      (ctx : WorkflowContext) (rt : Runtime)
      → IsHeld rt.agents
      → IsHeld ((handle_context clock ctx rt).0.agents)
  unfolding handle_context
  handle_context-IsHeld ctx rt h =
      let fx : Effects = record rt.effects { reads = suc rt.effects.reads } in
      let start = clock rt.effects.reads in
      same-IsHeld ((fire_agents clock ctx start rt.agents fx).agents) rt.agents
        (fire_agents-keys ctx start rt.agents fx) (fire_agents-specs ctx start rt.agents fx) h

switch-IsHeld :
    (id : String) (b : Bool) (rt : Runtime) (a : Option RegisteredAgent)
    → IsHeld rt.agents
    → IsHeld ((switch_agent id b rt a).agents)
switch-IsHeld id b rt none h = h
switch-IsHeld id b rt (some a) h = update-IsHeld id (set_switch b) rt.agents (λ _. refl) h

register_ready-IsHeld :
    (id : String) (spec : AgentSpec) (enabled : Option Bool) (rt : Runtime)
    (ms : List MissingCapability)
    → IsSound spec
    → IsHeld rt.agents
    → IsHeld ((register_ready id spec enabled rt ms).1.agents)
register_ready-IsHeld id spec enabled rt [] s h =
    set-IsHeld id (fresh_agent spec enabled) rt.agents s h
register_ready-IsHeld id spec enabled rt (m ∷ ms) s h = h

register_valid-IsHeld :
    (parsed : Parsed) (id : String) (enabled : Option Bool) (rt : Runtime) (v : ValidationResult)
    → validate_agent_spec parsed ≡ v
    → IsHeld rt.agents
    → IsHeld ((register_valid id enabled rt v).1.agents)
register_valid-IsHeld parsed id enabled rt (invalid issues) e h = h
register_valid-IsHeld parsed id enabled rt (valid spec) e h =
    register_ready-IsHeld id spec enabled rt
      (validate_runtime_capabilities spec.steps (runtime_from_registry rt.registry []))
      ((validate_agent_spec-IsSound parsed spec e).1) h

module _ (parse : AgentSpec → Parsed) where
  register_agent-IsHeld :
      (spec : AgentSpec) (enabled : Option Bool) (rt : Runtime)
      → IsHeld rt.agents
      → IsHeld ((register_agent parse spec enabled rt).1.agents)
  unfolding register_agent
  register_agent-IsHeld spec enabled rt h =
      register_valid-IsHeld (parse spec) spec.agent_id enabled rt (validate_agent_spec (parse spec))
        refl h

  after-IsHeld :
      (saved : RegisteredAgent) (r : RegistrationResult) (rt : Runtime)
      → IsHeld rt.agents
      → IsHeld ((after_registration parse saved (r, rt)).agents)
  after-IsHeld saved (registered id) rt h =
      update-IsHeld saved.spec.agent_id (restore_times parse saved) rt.agents (λ _. refl) h
  after-IsHeld saved (invalid_spec issues) rt h = h
  after-IsHeld saved (runtime_unavailable ms) rt h = h

  restore_agents-IsHeld :
      (saved : List RegisteredAgent) (rt : Runtime)
      → IsHeld rt.agents
      → IsHeld ((restore_agents parse saved rt).agents)
  unfolding restore_agents
  restore_agents-IsHeld [] rt h = h
  restore_agents-IsHeld (a ∷ saved) rt h =
      let (r, next) = register_agent parse a.spec (some a.enabled) rt in
      restore_agents-IsHeld saved
        (after_registration parse a (register_agent parse a.spec (some a.enabled) rt))
        (after-IsHeld a r next (register_agent-IsHeld a.spec (some a.enabled) rt h))

module _ (clock : ℕ → ℕ) (parse : AgentSpec → Parsed) where
  pub operate_runtime-IsHeld :
      (o : RuntimeOperation) (rt : Runtime)
      → IsHeld rt.agents
      → IsHeld ((operate_runtime clock parse o rt).agents)
  unfolding operate_runtime
  operate_runtime-IsHeld (register spec enabled) rt h =
      register_agent-IsHeld parse spec enabled rt h
  operate_runtime-IsHeld (unregister id) rt h = delete-IsHeld id rt.agents h
  operate_runtime-IsHeld (set_enabled id b) rt h = switch-IsHeld id b rt (get_entry id rt.agents) h
  operate_runtime-IsHeld (replace_registry registry) rt h = h
  operate_runtime-IsHeld (saw_context ctx) rt h = handle_context-IsHeld clock ctx rt h

  operated :
      (os : List RuntimeOperation) (rt : Runtime)
      → IsHeld rt.agents
      → IsHeld ((operate_runtime_all clock parse os rt).agents)
  unfolding operate_runtime_all
  operated [] rt h = h
  operated (o ∷ os) rt h =
      operated os (operate_runtime clock parse o rt) (operate_runtime-IsHeld o rt h)

-- A runtime that starts with the agents the host kept and then serves any operations holds agents
-- with a sound spec only, one for each key, whatever the host kept, the parser accepts and the clock
-- tells.
pub operate_runtime_all-IsHeld :
    (clock : ℕ → ℕ) (parse : AgentSpec → Parsed) (registry : Registry)
    (saved : List RegisteredAgent) (os : List RuntimeOperation)
    → IsHeld ((operate_runtime_all clock parse os (new_runtime parse registry saved)).agents)
operate_runtime_all-IsHeld clock parse registry saved os =
    let empty : Runtime = record {
      registry = registry;
      agents = [];
      effects = record { reads = 0; log = []; changed = [] };
    } in
    operated clock parse os (new_runtime parse registry saved)
      (restore_agents-IsHeld parse saved empty (tt, tt))
